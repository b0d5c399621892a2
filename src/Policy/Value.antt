-- ===== src/Policy/Value.antt =====
-- The values that policy/expression.ts compares: `unknown` values of JSON, and JavaScript's
-- equality, order and conversions to text on them. Numbers are floats: their type and primitives
-- are the parameter `JsNumber`. An array or object of the field map and one of the condition are
-- never the same reference, so that `==` and `includes` do not relate two of them.
pub mod Sample
use dep_customs.Prelude.{
  String, Bool, true, false, List, [], ◌∷◌, not, ◌&&◌, ◌||◌, str_eq, text_lt, join, if◌then◌else◌,
}

-- The primitives of JavaScript's `number`.
pub record JsNumber (N : Type 0) : Type 0 where
  -- 0 and 1, to which `false` and `true` convert, and NaN
  pub zero_number : N
  pub one_number : N
  pub nan : N
  -- `Number(text)` and `String(number)`
  pub of_text : String → N
  pub show : N → String
  -- `==`, which NaN fails; the equality of `includes`, which NaN passes; `<` and `<=`
  pub num_eq : N → N → Bool
  pub same_value_zero : N → N → Bool
  pub num_lt : N → N → Bool
  pub num_le : N → N → Bool
  pub is_finite : N → Bool
  -- finite and no integer; `Math.round(n * 100) / 100`
  pub is_fraction : N → Bool
  pub round_hundredths : N → N

mutual
  pub data Value (N : Type 0) : Type 0 where
    undefined null : Value N
    bool : Bool → Value N
    num : N → Value N
    str : String → Value N
    arr : Items N → Value N
    obj : Members N → Value N

  pub data Items (N : Type 0) : Type 0 where
    nil : Items N
    item : Value N → Items N → Items N

  pub data Members (N : Type 0) : Type 0 where
    none : Members N
    member : String → Value N → Members N → Members N

module _ {N : Type 0} where
  -- `v ?? default`
  abbrev pub or_value : Value N → Value N → Value N
  or_value undefined default = default
  or_value null default = default
  or_value v default = v

  -- `v === text`
  abbrev pub is_text_value : String → Value N → Bool
  is_text_value s (str t) = str_eq t s
  is_text_value s v = false

  -- an own member of the name `toString`, which JSON makes no function
  abbrev hides_text : Members N → Bool
  hides_text none = false
  hides_text (member k v ms) = if str_eq k "toString" then true else hides_text ms

  -- The conversion of the value to a primitive raises no TypeError: neither it nor a member of an
  -- array, which is made a text with it, is an object that hides the inherited `toString`.
  unfoldable mutual
    pub is_convertible : Value N → Bool
    is_convertible (arr items) = are_convertible items
    is_convertible (obj ms) = not (hides_text ms)
    is_convertible v = true

    pub are_convertible : Items N → Bool
    are_convertible nil = true
    are_convertible (item v items) = is_convertible v && are_convertible items

  -- `==` converts an array or object only where the other side is a text, number or Boolean.
  abbrev pub converts_against : Value N → Value N → Bool
  converts_against v undefined = true
  converts_against v null = true
  converts_against v (arr _) = true
  converts_against v (obj _) = true
  converts_against v w = is_convertible v

  abbrev pub eq_converts : Value N → Value N → Bool
  eq_converts a b = converts_against a b && converts_against b a

  abbrev pub order_converts : Value N → Value N → Bool
  order_converts a b = is_convertible a && is_convertible b

module _ {N : Type 0} ⦃js : JsNumber N⦄ where
  -- `String(v)` of a value that is convertible; in an array null and undefined are shown as nothing
  unfoldable mutual
    pub to_text : Value N → String
    to_text undefined = "undefined"
    to_text null = "null"
    to_text (bool true) = "true"
    to_text (bool false) = "false"
    to_text (num n) = js.show n
    to_text (str s) = s
    to_text (arr items) = join "," (item_texts items)
    to_text (obj _) = "[object Object]"

    pub item_texts : Items N → List String
    item_texts nil = []
    item_texts (item undefined items) = "" ∷ item_texts items
    item_texts (item null items) = "" ∷ item_texts items
    item_texts (item v items) = to_text v ∷ item_texts items

  -- an array or object as a primitive, any other value as it is
  abbrev pub to_primitive : Value N → Value N
  to_primitive (arr items) = str (to_text (arr items))
  to_primitive (obj ms) = str (to_text (obj ms))
  to_primitive v = v

  -- `Number(v)` of a primitive
  abbrev pub to_number : Value N → N
  to_number undefined = js.nan
  to_number null = js.zero_number
  to_number (bool true) = js.one_number
  to_number (bool false) = js.zero_number
  to_number (num n) = n
  to_number (str s) = js.of_text s
  to_number (arr items) = js.of_text (to_text (arr items))
  to_number (obj ms) = js.of_text (to_text (obj ms))

  -- `a == b` on a text and on a number
  unfoldable pub text_loosely_eq : String → Value N → Bool
  text_loosely_eq s undefined = false
  text_loosely_eq s null = false
  text_loosely_eq s (bool b) = js.num_eq (js.of_text s) (to_number (bool b))
  text_loosely_eq s (num n) = js.num_eq (js.of_text s) n
  text_loosely_eq s (str t) = str_eq s t
  text_loosely_eq s (arr items) = str_eq s (to_text (arr items))
  text_loosely_eq s (obj ms) = str_eq s (to_text (obj ms))

  unfoldable pub num_loosely_eq : N → Value N → Bool
  num_loosely_eq n undefined = false
  num_loosely_eq n null = false
  num_loosely_eq n v = js.num_eq n (to_number v)

  -- `a == b`
  unfoldable pub loosely_eq : Value N → Value N → Bool
  unfolding text_loosely_eq num_loosely_eq
  loosely_eq undefined undefined = true
  loosely_eq undefined null = true
  loosely_eq undefined v = false
  loosely_eq null undefined = true
  loosely_eq null null = true
  loosely_eq null v = false
  loosely_eq (bool b) v = num_loosely_eq (to_number (bool b)) v
  loosely_eq (num n) v = num_loosely_eq n v
  loosely_eq (str s) v = text_loosely_eq s v
  loosely_eq (arr xs) undefined = false
  loosely_eq (arr xs) null = false
  loosely_eq (arr xs) (arr ys) = false
  loosely_eq (arr xs) (obj ys) = false
  loosely_eq (arr xs) v = text_loosely_eq (to_text (arr xs)) v
  loosely_eq (obj xs) undefined = false
  loosely_eq (obj xs) null = false
  loosely_eq (obj xs) (arr ys) = false
  loosely_eq (obj xs) (obj ys) = false
  loosely_eq (obj xs) v = text_loosely_eq (to_text (obj xs)) v

  -- `a < b` and `a <= b`: of two texts by code units, and else of two numbers
  abbrev pub primitive_lt : Value N → Value N → Bool
  primitive_lt (str s) (str t) = text_lt s t
  primitive_lt a b = js.num_lt (to_number a) (to_number b)

  abbrev pub primitive_le : Value N → Value N → Bool
  primitive_le (str s) (str t) = not (text_lt t s)
  primitive_le a b = js.num_le (to_number a) (to_number b)

  unfoldable pub less : Value N → Value N → Bool
  less a b = primitive_lt (to_primitive a) (to_primitive b)

  unfoldable pub less_or_eq : Value N → Value N → Bool
  less_or_eq a b = primitive_le (to_primitive a) (to_primitive b)

  -- the equality of `Array.prototype.includes`
  unfoldable pub same_value : Value N → Value N → Bool
  same_value undefined undefined = true
  same_value null null = true
  same_value (bool true) (bool true) = true
  same_value (bool false) (bool false) = true
  same_value (num n) (num m) = js.same_value_zero n m
  same_value (str s) (str t) = str_eq s t
  same_value _ _ = false

  unfoldable pub includes_value : Items N → Value N → Bool
  unfolding same_value
  includes_value nil v = false
  includes_value (item x items) v = same_value x v || includes_value items v

  -- `Boolean(v)`
  unfoldable pub is_truthy : Value N → Bool
  is_truthy undefined = false
  is_truthy null = false
  is_truthy (bool b) = b
  is_truthy (num n) = js.num_eq n n && not (js.num_eq n js.zero_number)
  is_truthy (str s) = not (str_eq s "")
  is_truthy (arr _) = true
  is_truthy (obj _) = true

  -- `v !== null && v !== undefined`
  abbrev pub is_present : Value N → Bool
  is_present undefined = false
  is_present null = false
  is_present v = true
