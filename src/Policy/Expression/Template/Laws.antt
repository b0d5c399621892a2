-- ===== src/Policy/Expression/Template/Laws.antt =====
-- The scan of `renderTemplate`: its fuel is enough, and what it does to a text around a reference.
use Prim.Native.Char.{Char, code}
use Prim.Native.String
use text.Mathlib.TextLemmas.{nil-append, cons-append}
use dep_customs.Prelude.{
  ℕ, zero, suc, ◌+◌, ◌≤◌, ◌<◌, String, ◌≡◌, ◌≢◌, refl, ap, ◌∙◌, none, some, arith, size, eq_iff,
  trim, Option-cases, inl, inr,
}
use dep_customs.Policy.Value.{JsNumber}
use dep_customs.Policy.Expression.{Fields, get_field}
use dep_customs.Policy.Expression.Template.{
  take_ref, after_braces, match_ref, render_from, render_template, render_value,
}

abbrev pub Lacks : ℕ → String → Type 0
Lacks x String.[] = Unit
Lacks x (String.◌∷◌ c s) = (code c ≢ x) × Lacks x s

size-take_ref : (s : String) → size (take_ref s).1 ≤ size s
unfolding take_ref
size-take_ref String.[] = omega arith
size-take_ref (String.◌∷◌ c s) = ground (arith, size-take_ref s)

size-after_braces : (s : String) (r : String) → after_braces s ≡ some r → size r < size s
size-after_braces String.[] r h = cc
size-after_braces (String.◌∷◌ c String.[]) r h = cc
size-after_braces (String.◌∷◌ c (String.◌∷◌ d s)) r h = ground arith

size-match_ref :
    (s : String) (ref rest : String) → match_ref s ≡ some (ref, rest) → size rest < size s
unfolding match_ref take_ref
size-match_ref String.[] ref rest h = cc
size-match_ref (String.◌∷◌ c String.[]) ref rest h = cc
size-match_ref (String.◌∷◌ c (String.◌∷◌ d s)) ref rest h =
    ground (arith, size-take_ref s, size-after_braces (take_ref s).1 rest)

-- a reference, its closing braces and what follows
abbrev pub braced : String → String → String
braced ref rest = String.◌++◌ ref (String.◌∷◌ "}" (String.◌∷◌ "}" rest))

-- opening braces and what follows
abbrev pub opened : String → String
opened s = String.◌∷◌ "{" (String.◌∷◌ "{" s)

take_ref-braced :
    (ref rest : String)
    → Lacks b'}' ref
    → take_ref (braced ref rest) ≡ (ref, String.◌∷◌ "}" (String.◌∷◌ "}" rest))
unfolding take_ref
take_ref-braced String.[] rest h = rw nil-append refl
take_ref-braced (String.◌∷◌ c s) rest (h, k) =
    rw cons-append (ground (arith, take_ref-braced s rest k))

match_ref-opened :
    (ref rest : String)
    → Lacks b'}' ref
    → ref ≢ ""
    → match_ref (opened (braced ref rest)) ≡ some (ref, rest)
unfolding match_ref
match_ref-opened ref rest h ne = rw (take_ref-braced ref rest h) (ground (arith, eq_iff ref ""))

size-append : (s t : String) → size (String.◌++◌ s t) ≡ size s + size t
size-append String.[] t = rw nil-append (omega arith)
size-append (String.◌∷◌ c s) t = rw cons-append (omega (arith, size-append s t))

module _ {N : Type 0} ⦃js : JsNumber N⦄ (fields : Fields N) where
  -- Fuel above the number of characters makes no difference.
  render_from_fuel :
      (n m : ℕ) (s : String)
      → size s < n
      → size s < m
      → render_from n fields s ≡ render_from m fields s
  unfolding render_from
  render_from_fuel (suc n) (suc m) String.[] h k = refl
  render_from_fuel (suc n) (suc m) (String.◌∷◌ c s) h k =
      elim (Option-cases (match_ref (String.◌∷◌ c s))) [
        | inl e ↦
            rw (e, render_from)
              (ap (String.◌∷◌ c) (render_from_fuel n m s (omega arith) (omega arith)))
        | inr ((ref, rest), e) ↦
            let shorter = size-match_ref (String.◌∷◌ c s) ref rest e in
            rw (e, render_from)
              (ap (String.◌++◌ (render_value (get_field (trim ref) fields)))
                (render_from_fuel n m rest (omega arith) (omega arith)))
      ]
  render_from_fuel zero m s h k = absurd (omega arith)
  render_from_fuel n zero s h k = absurd (omega arith)

  render-eq_from :
      (n : ℕ) (s : String) → size s < n → render_from n fields s ≡ render_template s fields
  unfolding render_template
  render-eq_from n s h = render_from_fuel n (suc (size s)) s h (omega arith)

  match_ref-plain : (c : Char) (s : String) → code c ≢ b'{' → match_ref (String.◌∷◌ c s) ≡ none
  unfolding match_ref
  match_ref-plain c String.[] h = refl
  match_ref-plain c (String.◌∷◌ d s) h = ground arith

  -- A character other than an opening brace is copied.
  render_template-cons :
      (c : Char) (s : String)
      → code c ≢ b'{'
      → render_template (String.◌∷◌ c s) fields ≡ String.◌∷◌ c (render_template s fields)
  unfolding render_from render_template
  render_template-cons c s h =
      rw (match_ref-plain c s h, render_from)
        (ap (String.◌∷◌ c) (render-eq_from (suc (size s)) s (omega arith)))

  -- A text without an opening brace is copied.
  pub render_template_plain :
      (s rest : String)
      → Lacks b'{' s
      → render_template (String.◌++◌ s rest) fields ≡ String.◌++◌ s (render_template rest fields)
  render_template_plain String.[] rest h = simp nil-append
  render_template_plain (String.◌∷◌ c s) rest (h, k) = simp cons-append (
      rw (render_template-cons c (String.◌++◌ s rest) h)
        (ap (String.◌∷◌ c) (render_template_plain s rest k)))

  render_template-opened :
      (ref rest : String)
      → Lacks b'}' ref
      → ref ≢ ""
      → render_template (opened (braced ref rest)) fields
        ≡ String.◌++◌ (render_value (get_field (trim ref) fields)) (render_template rest fields)
  unfolding render_from render_template
  render_template-opened ref rest h ne =
      rw (match_ref-opened ref rest h ne, render_from)
        (ap (String.◌++◌ (render_value (get_field (trim ref) fields))) (
          render-eq_from (suc (suc (size (braced ref rest)))) rest
            (omega (arith, size-append ref (String.◌∷◌ "}" (String.◌∷◌ "}" rest))))))

  -- A message with a reference: the text in front of it has no opening brace and is copied, the
  -- reference is replaced by the value of the field that it names once trimmed, and what follows is
  -- rendered in turn.
  pub render_template-braced :
      (before ref rest : String)
      → Lacks b'{' before
      → Lacks b'}' ref
      → ref ≢ ""
      → render_template (String.◌++◌ before (opened (braced ref rest))) fields
        ≡ String.◌++◌ before
            (String.◌++◌ (render_value (get_field (trim ref) fields)) (render_template rest fields))
  render_template-braced before ref rest h k ne =
      render_template_plain before _ h
      ∙ ap (String.◌++◌ before) (render_template-opened ref rest k ne)
