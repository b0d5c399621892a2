-- ===== src/Connectors/Osv/Vectors.antt =====
-- connectors/osv/parse.ts: the segments of a CVSS vector, and the exploitability that it shows.
pub mod Printed
use Prim.Native.Char.{Char, code}
use Prim.Native.String
use dep_customs.Prelude.{
  String, List, [], ◌∷◌, Option, none, some, lookup, any, ◌==◌, str_eq, if◌then◌else◌,
}

-- `parts[key] = value`
unfoldable pub assign : String → String → List (String × String) → List (String × String)
assign key value [] = (key, value) ∷ []
assign key value ((k, v) ∷ parts) =
    if str_eq k key then (key, value) ∷ parts else (k, v) ∷ assign key value parts

abbrev pub push_front : Char → List String → List String
push_front c [] = String.◌∷◌ c "" ∷ []
push_front c (w ∷ ws) = String.◌∷◌ c w ∷ ws

-- `vector.split("/")`
unfoldable pub split_slash : String → List String
split_slash String.[] = "" ∷ []
split_slash (String.◌∷◌ c s) =
    let rest = split_slash s in if code c == b'/' then "" ∷ rest else push_front c rest

abbrev pub in_front : Char → Option (String × String) → Option (String × String)
in_front c none = none
in_front c (some (key, value)) = some (String.◌∷◌ c key, value)

-- the text before the first colon and the one after it
unfoldable pub cut_colon : String → Option (String × String)
cut_colon String.[] = none
cut_colon (String.◌∷◌ c s) =
    let rest = cut_colon s in if code c == b':' then some ("", s) else in_front c rest

unfoldable pub assign_segment : String → List (String × String) → List (String × String)
assign_segment segment parts = elim (cut_colon segment) [
  | none ↦ parts
  | some (key, value) ↦ assign key value parts
]

unfoldable pub assign_segments : List String → List (String × String) → List (String × String)
assign_segments [] parts = parts
assign_segments (segment ∷ segments) parts = assign_segments segments (assign_segment segment parts)

unfoldable pub parse_cvss_segments : String → List (String × String)
parse_cvss_segments vector = assign_segments (split_slash vector) []

-- What a plain object has under a key: nothing, an entry of its own, or the member of
-- Object.prototype of that name, which is no text and which arithmetic reads as NaN.
pub data Entry {ℓ} (A : Type ℓ) : Type ℓ where
  absent : Entry A
  own : A → Entry A
  inherited : (name : String) → Entry A

-- the members of Object.prototype
abbrev pub prototype_members : List String
prototype_members =
    "constructor" ∷ "__defineGetter__" ∷ "__defineSetter__" ∷ "hasOwnProperty" ∷ "__lookupGetter__"
    ∷ "__lookupSetter__" ∷ "isPrototypeOf" ∷ "propertyIsEnumerable" ∷ "toString" ∷ "valueOf"
    ∷ "__proto__" ∷ "toLocaleString" ∷ []

abbrev pub entry_or_inherited {ℓ} : {A : Type ℓ} → String → Option A → Entry A
entry_or_inherited v (some a) = own a
entry_or_inherited v none = if any (str_eq v) prototype_members then inherited v else absent

-- `table[parts[key]]`; a missing value is the key "undefined", which no table has
unfoldable pub metric {ℓ} :
    {A : Type ℓ} → String → List (String × A) → List (String × String) → Entry A
metric key table parts = elim (lookup key parts) [
  | none ↦ absent
  | some v ↦ entry_or_inherited v (lookup v table)
]

pub record Exploitability : Type 0 where
  pub attack_vector : Entry String
  pub attack_complexity : Entry String
  pub privileges_required : Entry String
  pub user_interaction : Entry String

unfoldable pub exploitability_of : List (String × String) → Exploitability
exploitability_of parts = record {
  attack_vector =
      metric "AV" (("N", "NETWORK") ∷ ("A", "ADJACENT") ∷ ("L", "LOCAL") ∷ ("P", "PHYSICAL") ∷ [])
        parts;
  attack_complexity = metric "AC" (("L", "LOW") ∷ ("H", "HIGH") ∷ []) parts;
  privileges_required = metric "PR" (("N", "NONE") ∷ ("L", "LOW") ∷ ("H", "HIGH") ∷ []) parts;
  user_interaction = metric "UI" (("N", "NONE") ∷ ("R", "REQUIRED") ∷ []) parts;
}

-- An empty vector is as good as none.
unfoldable pub parse_cvss_vector : Option String → Exploitability
parse_cvss_vector none = exploitability_of []
parse_cvss_vector (some vector) =
    if str_eq vector ""
    then exploitability_of []
    else exploitability_of (parse_cvss_segments vector)
