-- ===== src/Prelude/Text.antt =====
-- Texts: JavaScript's `+`, `includes`, `startsWith`, `endsWith`, `join` and `<` on native strings.
use Prim.Native.Nat.{ℕ, suc, ◌+◌, ◌-◌, ◌/◌, ◌%◌, compare, Ordering}
use Prim.Native.Char.{Char, code}
use Prim.Native.String
use Prim.Native.String.{String}
use mathlib.Core.Bool.{Bool, true, false, ◌&&◌, ◌||◌}
use mathlib.Core.Option.{Option, none, some}
use mathlib.Core.List.{List, [], ◌∷◌, ◌++◌}
use text.Mathlib.Text.{◌==◌, find?}
pub use text.Mathlib.Text.{◌==◌ as str_eq, starts_with}
pub use text.Mathlib.TextEquality.{eq_iff}
pub use text.Mathlib.TextPositions.{eq_refl}
use dep_customs.Prelude.Tests.{ltb, leb, ◌==◌ as nat_eq, if◌then◌else◌, is_some}

-- the parts of a template text, `${a}${b}…`
abbrev pub concat : List String → String
concat [] = ""
concat (s ∷ ss) = String.◌++◌ s (concat ss)

abbrev pub includes : String → String → Bool
includes s t = is_some (find? s t)

abbrev pub ends_with : String → String → Bool
ends_with String.[] t = "" == t
ends_with (String.◌∷◌ c s) t = (String.◌∷◌ c s) == t || ends_with s t

-- `parts.join(sep)`
abbrev pub join : String → List String → String
join sep [] = ""
join sep (s ∷ []) = s
join sep (s ∷ t ∷ ss) = String.◌++◌ s (String.◌++◌ sep (join sep (t ∷ ss)))

-- the UTF-16 code units of a text, by which JavaScript orders texts
abbrev pub units_of : ℕ → List ℕ
units_of c =
    if ltb c 65536 then c ∷ [] else (55296 + (c - 65536) / 1024) ∷ (56320 + (c - 65536) % 1024) ∷ []

abbrev pub code_units : String → List ℕ
code_units String.[] = []
code_units (String.◌∷◌ c s) = units_of (code c) ++ code_units s

abbrev pub units_lt : List ℕ → List ℕ → Bool
units_lt us [] = false
units_lt [] (v ∷ vs) = true
units_lt (u ∷ us) (v ∷ vs) = elim (compare u v) [
  | Ordering.lt ↦ true
  | Ordering.eq ↦ units_lt us vs
  | Ordering.gt ↦ false
]

abbrev pub text_lt : String → String → Bool
text_lt s t = units_lt (code_units s) (code_units t)

-- the characters that `trim` takes off
abbrev pub is_space : Char → Bool
is_space ch =
    let c = code ch in
    (leb 9 c && leb c 13)
    || nat_eq c 32
    || nat_eq c 160
    || nat_eq c 5760
    || (leb 8192 c && leb c 8202)
    || nat_eq c 8232
    || nat_eq c 8233
    || nat_eq c 8239
    || nat_eq c 8287
    || nat_eq c 12288
    || nat_eq c 65279

abbrev pub trim_start : String → String
trim_start String.[] = ""
trim_start (String.◌∷◌ c s) = let rest = trim_start s in if is_space c then rest else String.◌∷◌ c s

-- a space in front of nothing is a trailing one
abbrev trim_front : Char → String → String
trim_front c String.[] = if is_space c then "" else String.◌∷◌ c ""
trim_front c (String.◌∷◌ d s) = String.◌∷◌ c (String.◌∷◌ d s)

abbrev pub trim_end : String → String
trim_end String.[] = ""
trim_end (String.◌∷◌ c s) = trim_front c (trim_end s)

-- `text.trim()`
abbrev pub trim : String → String
trim s = trim_end (trim_start s)

-- the number of characters
abbrev pub size : String → ℕ
size String.[] = 0
size (String.◌∷◌ c s) = suc (size s)

-- the value of a key, the first one
abbrev pub lookup {ℓ} : {A : Type ℓ} → String → List (String × A) → Option A
lookup key [] = none
lookup key ((k, v) ∷ pairs) = if str_eq k key then some v else lookup key pairs
