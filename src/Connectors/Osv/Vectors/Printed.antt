-- ===== src/Connectors/Osv/Vectors/Printed.antt =====
-- A CVSS vector is read back from its text.
use Prim.Native.Char.{code}
use Prim.Native.String
use text.Mathlib.TextLemmas.{nil-append, cons-append}
use mathlib.Core.List
use dep_customs.Prelude.{
  String, ◌≡◌, ◌≢◌, refl, sym, ap, ◌∙◌, List, [], ◌∷◌, ◌++◌, map, some, arith, eq_iff, All,
  All-append, join,
}
use dep_customs.Connectors.Osv.Vectors.{
  assign, split_slash, cut_colon, assign_segment, assign_segments, parse_cvss_segments,
}

abbrev pub IsSlashFree : String → Type 0
IsSlashFree String.[] = Unit
IsSlashFree (String.◌∷◌ c s) = (code c ≢ b'/') × IsSlashFree s

abbrev pub IsColonFree : String → Type 0
IsColonFree String.[] = Unit
IsColonFree (String.◌∷◌ c s) = (code c ≢ b':') × IsColonFree s

-- a metric that a vector can carry
abbrev pub IsMetric : String × String → Type 0
IsMetric (key, value) = IsColonFree key × IsSlashFree key × IsSlashFree value

abbrev pub IsNew : String → List (String × String) → Type 0
IsNew key parts = All (λ (p : String × String). p.0 ≢ key) parts

abbrev pub AreDistinct : List (String × String) → Type 0
AreDistinct [] = Unit
AreDistinct ((key, value) ∷ metrics) = IsNew key metrics × AreDistinct metrics

abbrev pub segment_of : String × String → String
segment_of (key, value) = String.◌++◌ key (String.◌∷◌ ":" value)

-- the text of a vector
abbrev pub vector_of : List (String × String) → String
vector_of metrics = join "/" (map segment_of metrics)

split_slash-free : (a : String) → IsSlashFree a → split_slash a ≡ a ∷ []
unfolding split_slash
split_slash-free String.[] h = refl
split_slash-free (String.◌∷◌ c a) (h, k) = ground (arith, split_slash-free a k)

split_slash-append :
    (a s : String)
    → IsSlashFree a
    → split_slash (String.◌++◌ a (String.◌∷◌ "/" s)) ≡ a ∷ split_slash s
unfolding split_slash
split_slash-append String.[] s h = rw nil-append refl
split_slash-append (String.◌∷◌ c a) s (h, k) =
    rw cons-append (ground (arith, split_slash-append a s k))

cut_colon-append :
    (a s : String) → IsColonFree a → cut_colon (String.◌++◌ a (String.◌∷◌ ":" s)) ≡ some (a, s)
unfolding cut_colon
cut_colon-append String.[] s h = rw nil-append refl
cut_colon-append (String.◌∷◌ c a) s (h, k) = rw cons-append (ground (arith, cut_colon-append a s k))

IsSlashFree-append : (a b : String) → IsSlashFree a → IsSlashFree b → IsSlashFree (String.◌++◌ a b)
IsSlashFree-append String.[] b h k = rw nil-append k
IsSlashFree-append (String.◌∷◌ c a) b (p, h) k = rw cons-append (p, IsSlashFree-append a b h k)

segment-IsSlashFree : (p : String × String) → IsMetric p → IsSlashFree (segment_of p)
segment-IsSlashFree (key, value) (_, k, v) =
    IsSlashFree-append key (String.◌∷◌ ":" value) k ((λ e. omega (arith, e)), v)

split_slash-segments :
    (p : String × String) (metrics : List (String × String))
    → All IsMetric (p ∷ metrics)
    → split_slash (vector_of (p ∷ metrics)) ≡ map segment_of (p ∷ metrics)
split_slash-segments p [] (h, _) = split_slash-free (segment_of p) (segment-IsSlashFree p h)
split_slash-segments p (q ∷ metrics) (h, k) =
    ap split_slash (ap (String.◌++◌ (segment_of p)) (one-append (vector_of (q ∷ metrics))))
    ∙ split_slash-append (segment_of p) (vector_of (q ∷ metrics)) (segment-IsSlashFree p h)
    ∙ ap (λ ss. segment_of p ∷ ss) (split_slash-segments q metrics k)
  where
    one-append : (s : String) → String.◌++◌ "/" s ≡ String.◌∷◌ "/" s
    one-append s = cons-append "/" "" s ∙ ap (String.◌∷◌ "/") (rw nil-append refl)

assign-new :
    (key value : String) (parts : List (String × String))
    → IsNew key parts
    → assign key value parts ≡ parts ++ (key, value) ∷ []
unfolding assign
assign-new key value [] h = refl
assign-new key value ((k, v) ∷ parts) (ne, h) =
    ground (arith, assign-new key value parts h, eq_iff k key)

segment-assigned :
    (key value : String) (parts : List (String × String))
    → IsColonFree key
    → assign_segment (segment_of (key, value)) parts ≡ assign key value parts
unfolding assign_segment
segment-assigned key value parts h = rw (cut_colon-append key value h, assign_segment) refl

IsNew-append :
    (key value : String) (parts metrics : List (String × String))
    → IsNew key metrics
    → All (λ (p : String × String). IsNew p.0 parts) metrics
    → All (λ (p : String × String). IsNew p.0 (parts ++ (key, value) ∷ [])) metrics
IsNew-append key value parts [] d new = tt
IsNew-append key value parts (m ∷ metrics) (ne, d) (n, new) = (
  All-append (λ (p : String × String). p.0 ≢ m.0) parts ((key, value) ∷ []) n
      ((λ e. ne (sym e)), tt),
  IsNew-append key value parts metrics d new,
)

assign_segments-metrics :
    (metrics parts : List (String × String))
    → All IsMetric metrics
    → AreDistinct metrics
    → All (λ (p : String × String). IsNew p.0 parts) metrics
    → assign_segments (map segment_of metrics) parts ≡ parts ++ metrics
unfolding assign_segments
assign_segments-metrics [] parts h d new = sym (List.append-nil parts)
assign_segments-metrics ((key, value) ∷ metrics) parts (h, hs) (d, ds) (n, ns) =
    ap (assign_segments (map segment_of metrics))
      (segment-assigned key value parts h.0 ∙ assign-new key value parts n)
    ∙ assign_segments-metrics metrics (parts ++ (key, value) ∷ []) hs ds
        (IsNew-append key value parts metrics d ns)
    ∙ List.append_assoc parts ((key, value) ∷ []) metrics

-- The metrics of a vector are read back from its text, if their keys are distinct and hold no colon
-- and no slash, and their values no slash.
parse_cvss_segments-vector :
    (metrics : List (String × String))
    → All IsMetric metrics
    → AreDistinct metrics
    → parse_cvss_segments (vector_of metrics) ≡ metrics
unfolding parse_cvss_segments split_slash assign_segments assign_segment cut_colon
parse_cvss_segments-vector [] h d = refl
parse_cvss_segments-vector (p ∷ metrics) h d =
    ap (λ ss. assign_segments ss []) (split_slash-segments p metrics h)
    ∙ assign_segments-metrics (p ∷ metrics) [] h d (none_yet (p ∷ metrics))
  where
    none_yet : (ms : List (String × String)) → All (λ (q : String × String). IsNew q.0 []) ms
    none_yet [] = tt
    none_yet (m ∷ ms) = (tt, none_yet ms)
