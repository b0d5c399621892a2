-- ===== src/Policy/Expression/Template.antt =====
-- `renderTemplate` of policy/expression.ts: every `{{ref}}` of a message is replaced by the value of
-- its field. A reference is a non-empty run of characters other than `}`, as the regular expression
-- reads it. The scan takes fuel, one more than the text has characters.
pub mod Laws
use Prim.Native.Char.{Char, code}
use Prim.Native.String
use mathlib.Core.Option
use text.Mathlib.Text.{char_at?}
use dep_customs.Prelude.{
  ℕ, zero, suc, ◌/◌, ◌%◌, String, true, false, ◌&&◌, List, [], ◌∷◌, Option, none, some, or_else,
  str_eq, size, trim, concat, join, ltb, ◌==◌, if◌then◌else◌,
}
use dep_customs.Policy.Value.{
  JsNumber, Value, Items, Members, undefined, null, bool, num, str, arr, obj,
}
use dep_customs.Policy.Expression.{Fields, get_field}

-- the two last characters of `\u00..`
abbrev hex_digit : ℕ → String
hex_digit n = elim (char_at? "0123456789abcdef" n) [ none ↦ "" | some c ↦ String.◌∷◌ c "" ]

-- a character inside a JSON text
unfoldable pub escape : Char → String
escape ch =
    let c = code ch in
    if c == 34
    then "\\\""
    else if c == 92
    then "\\\\"
    else if c == 8
    then "\\b"
    else if c == 12
    then "\\f"
    else if c == 10
    then "\\n"
    else if c == 13
    then "\\r"
    else if c == 9
    then "\\t"
    else if ltb c 32
    then concat ("\\u00" ∷ hex_digit (c / 16) ∷ hex_digit (c % 16) ∷ [])
    else String.◌∷◌ ch ""

unfoldable pub escape_each : String → String
unfolding escape
escape_each String.[] = ""
escape_each (String.◌∷◌ c s) = String.◌++◌ (escape c) (escape_each s)

unfoldable pub quoted : String → String
unfolding escape_each
quoted s = concat ("\"" ∷ escape_each s ∷ "\"" ∷ [])

module _ {N : Type 0} ⦃js : JsNumber N⦄ where
  -- `JSON.stringify`; `none` for undefined, which an object leaves out
  unfoldable mutual
    unfolding quoted

    pub json_text : Value N → Option String
    json_text undefined = none
    json_text null = some "null"
    json_text (bool true) = some "true"
    json_text (bool false) = some "false"
    json_text (num n) = some (if js.is_finite n then js.show n else "null")
    json_text (str s) = some (quoted s)
    json_text (arr items) = some (concat ("[" ∷ join "," (json_items items) ∷ "]" ∷ []))
    json_text (obj ms) = some (concat ("{" ∷ join "," (json_members ms) ∷ "}" ∷ []))

    pub json_items : Items N → List String
    json_items Items.nil = []
    json_items (Items.item v items) = or_else (json_text v) "null" ∷ json_items items

    pub json_members : Members N → List String
    json_members Members.none = []
    json_members (Members.member k v ms) =
        let rest = json_members ms in
        elim (json_text v) [ none ↦ rest | some t ↦ concat (quoted k ∷ ":" ∷ t ∷ []) ∷ rest ]

  -- the text of a field's value
  unfoldable pub render_value : Value N → String
  unfolding json_text
  render_value undefined = "?"
  render_value null = "?"
  render_value (arr items) = or_else (json_text (arr items)) "[object]"
  render_value (obj ms) = or_else (json_text (obj ms)) "[object]"
  render_value (str s) = s
  render_value (num n) = js.show (if js.is_fraction n then js.round_hundredths n else n)
  render_value (bool b) = if b then "true" else "false"

-- the longest run without `}`, and what follows it
unfoldable pub take_ref : String → String × String
take_ref String.[] = ("", "")
take_ref (String.◌∷◌ c s) =
    let (ref, rest) = take_ref s in
    if code c == b'}' then ("", String.◌∷◌ c s) else (String.◌∷◌ c ref, rest)

-- `{{ref}}` at the head of a text: the reference, and the text behind it
abbrev after_braces : String → Option String
after_braces (String.◌∷◌ c (String.◌∷◌ d s)) =
    if code c == b'}' && code d == b'}' then some s else none
after_braces _ = none

abbrev read_ref : String → Option (String × String)
unfolding take_ref
read_ref s =
    let (ref, rest) = take_ref s in
    if str_eq ref "" then none else Option.map (λ r. (ref, r)) (after_braces rest)

unfoldable pub match_ref : String → Option (String × String)
unfolding take_ref
match_ref (String.◌∷◌ c (String.◌∷◌ d s)) =
    if code c == b'{' && code d == b'{' then read_ref s else none
match_ref _ = none

module _ {N : Type 0} ⦃js : JsNumber N⦄ where
  unfoldable pub render_from : ℕ → Fields N → String → String
  render_from zero fields s = s
  render_from (suc n) fields String.[] = ""
  render_from (suc n) fields (String.◌∷◌ c s) = elim (match_ref (String.◌∷◌ c s)) [
    | none ↦ String.◌∷◌ c (render_from n fields s)
    | some (ref, rest) ↦
        String.◌++◌ (render_value (get_field (trim ref) fields)) (render_from n fields rest)
  ]

  unfoldable pub render_template : String → Fields N → String
  unfolding render_from
  render_template template fields = render_from (suc (size template)) fields template
