-- ===== src/Policy/Value/Sample.antt =====
-- Numbers for the witnesses and tests: the natural numbers and NaN.
use Prim.Native.Char.{Char, code}
use dep_customs.Prelude.{
  ℕ, zero, suc, ◌+◌, ◌-◌, ◌*◌, String, Bool, true, false, ◌&&◌, leb, ltb, ◌==◌, if◌then◌else◌,
}
use dep_customs.Policy.Value.{JsNumber}

pub data Sample : Type 0 where
  not_a_number : Sample
  natural : ℕ → Sample

abbrev digit : Char → Sample → Sample
digit c not_a_number = not_a_number
digit c (natural n) =
    let d = code c in if leb 48 d && leb d 57 then natural (n * 10 + (d - 48)) else not_a_number

abbrev digits_from : Sample → String → Sample
digits_from n String.[] = n
digits_from n (String.◌∷◌ c s) = digits_from (digit c n) s

abbrev eq_with : Bool → Sample → Sample → Bool
eq_with both_nan not_a_number not_a_number = both_nan
eq_with both_nan (natural n) (natural m) = n == m
eq_with both_nan _ _ = false

abbrev test_with : (ℕ → ℕ → Bool) → Sample → Sample → Bool
test_with p (natural n) (natural m) = p n m
test_with p _ _ = false

-- at most three digits, which the tests need
abbrev digit_text : ℕ → String
digit_text zero = "0"
digit_text (suc zero) = "1"
digit_text _ = "2"

abbrev show_sample : Sample → String
show_sample not_a_number = "NaN"
show_sample (natural n) = digit_text n

instance abbrev pub sample_number : JsNumber Sample
sample_number = record {
  zero_number = natural 0;
  one_number = natural 1;
  nan = not_a_number;
  of_text = digits_from (natural 0);
  show = show_sample;
  num_eq = eq_with false;
  same_value_zero = eq_with true;
  num_lt = test_with ltb;
  num_le = test_with leb;
  is_finite = λ n. test_with leb n n;
  is_fraction = λ n. false;
  round_hundredths = λ n. n;
}
