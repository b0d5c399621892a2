-- ===== src/Connectors/Osv/Cvss/Scores.antt =====
-- How a CVSS score is rounded up to tenths.
use native.Mathlib.Nat.{div-mul-le_self, lt-div-mul-add, div-lt_iff_lt-mul, mul-le-mul_right}
use dep_customs.Prelude.{ℕ, ◌+◌, ◌*◌, ◌/◌, ◌≤◌, ◌<◌, arith}
use dep_customs.Connectors.Osv.Cvss.{min, round_up}

-- The tenths are the fewest that reach the score, but for half of a hundred-thousandth: the score is
-- above the next lower tenth and not above this one. It is cut at ten.
abbrev pub IsRoundedUp : (unit score tenths : ℕ) → Type 0
IsRoundedUp unit score tenths =
    (tenths ≤ 100)
    × (min score (unit * 1000000) ≤ tenths * 10000 * unit + unit / 2)
    × ((t : ℕ) → t < tenths → t * 10000 * unit + unit ≤ min score (unit * 1000000) + unit / 2)

min-le : (a b : ℕ) → min a b ≤ b
min-le a b = ground arith

-- the nearest hundred-thousandth
nearest_bounds :
    (unit m : ℕ)
    → 1 < unit
    → ((m + unit / 2) / unit * unit ≤ m + unit / 2)
      × (m + unit / 2 < (m + unit / 2) / unit * unit + unit)
nearest_bounds unit m h = (div-mul-le_self (m + unit / 2) unit, lt-div-mul-add (omega arith))

pub round_up-IsRoundedUp :
    (unit score : ℕ) → 1 < unit → IsRoundedUp unit score (round_up unit score)
unfolding round_up
round_up-IsRoundedUp unit score h =
    let m = min score (unit * 1000000) in
    let q : ℕ = (m + unit / 2) / unit in
    let (under, over) = nearest_bounds unit m h in
    let below = min-le score (unit * 1000000) in
    let few : (m + unit / 2) / unit < 1000001 =
      (div-lt_iff_lt-mul {k = unit} {x = m + unit / 2} {y = 1000001} (omega arith)).1
        (omega (arith, below)) in
    (
      omega (arith, few),
      (let up = mul-le-mul_right {m = q} {n = (q + 9999) / 10000 * 10000} unit (omega arith) in
          omega (arith, up, over)),
      (λ t lt.
          let up = mul-le-mul_right {m = t * 10000 + 1} {n = q} unit (omega (arith, lt)) in
          omega (arith, up, under)),
    )
