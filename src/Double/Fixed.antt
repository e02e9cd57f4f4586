-- ===== src/Double/Fixed.antt =====
-- A value of the interface that runs: thousandths as integers, with `none` for NaN. It shows that
-- the laws can be met, and the tests compute with it.
use native.Mathlib.Nat.{mul-div-le, mul-le-mul_right, le-div_iff_mul-le, le_of_mul-le-mul_right}
use spiketrace.Prelude.{
  ◌<◌, ◌≤◌, ℕ, zero, suc, ◌+◌, ◌*◌, ◌/◌, ◌%◌, Bool, false, Option, none, some, [], ◌∷◌, arith,
  Bytes,
}
use spiketrace.Prelude.Int.{ℤ, pos, negsuc, pos_part, ◌+ℤ◌, ◌-ℤ◌, ◌*ℤ◌, ◌/ℤ◌, ltb_ℤ, leb_ℤ, eqb_ℤ}
use spiketrace.Double.{Double, IsOrdered}

abbrev pub Fixed : Type 0
Fixed = Option ℤ

abbrev pub units : ℕ → Fixed
units n = some (pos (n * 1000))

abbrev lift₁ : (ℤ → ℤ → Fixed) → Fixed → Fixed → Fixed
lift₁ f (some a) (some b) = f a b
lift₁ f (some a) none = none
lift₁ f none b = none

abbrev test : (ℤ → ℤ → Bool) → Fixed → Fixed → Bool
test f (some a) (some b) = f a b
test f (some a) none = false
test f none b = false

abbrev divide : ℤ → ℤ → Fixed
divide a (pos zero) = none
divide a (pos (suc n)) = some ((a *ℤ pos 1000) /ℤ suc n)
divide a (negsuc n) = some (pos 0 -ℤ ((a *ℤ pos 1000) /ℤ suc n))

abbrev whole : Fixed → ℕ
whole none = 0
whole (some z) = pos_part z / 1000

-- The digits of a two-place number below ten, enough for the tests.
abbrev digits : Fixed → Bytes
digits none = b'n' ∷ b'a' ∷ b'n' ∷ []
digits (some z) =
    (b'0' + pos_part z / 1000 % 10)
    ∷ b'.'
    ∷ (b'0' + pos_part z / 100 % 10)
    ∷ (b'0' + pos_part z / 10 % 10)
    ∷ []

instance abbrev pub fixed_double : Double Fixed
fixed_double = record {
  literal = λ n k. some (pos (n * 1000 / k));
  of_ℕ = units;
  to_ℕ = whole;
  add = lift₁ λ a b. some (a +ℤ b);
  sub = lift₁ λ a b. some (a -ℤ b);
  mul = lift₁ λ a b. some ((a *ℤ b) /ℤ 1000);
  div = lift₁ divide;
  lt = test ltb_ℤ;
  le = test leb_ℤ;
  eq = test eqb_ℤ;
  print = digits;
}

thousandths_mono : (a b c e : ℕ) → 0 < b → 0 < e → a * e ≤ c * b → a * 1000 / b ≤ c * 1000 / e
thousandths_mono a b c e hb he h =
    let q = a * 1000 / b in
    let q_le : b * q ≤ a * 1000 = mul-div-le (a * 1000) b in
    let step : (b * q) * e ≤ (a * 1000) * e = mul-le-mul_right e q_le in
    (le-div_iff_mul-le he).1
      (le_of_mul-le-mul_right {k = b} (grind (arith, step, mul-le-mul_right 1000 h)) hb)

pub Fixed-IsOrdered : IsOrdered Fixed
unfolding eqb_ℤ
Fixed-IsOrdered = record {
  lt_irrefl = λ x. ground arith;
  le_of_lt = λ x y h. ground arith;
  le_trans = λ x y z h k. ground arith;
  lt-le_trans = λ x y z h k. ground arith;
  lt-eq-not-le = λ x y h k. ground arith;
  le-self-eq-eq = λ x. ground arith;
  le-eq = λ x y h. (ground arith, ground arith);
  le-literal = λ a b c e hb he h. let m = thousandths_mono a b c e hb he h in ground arith;
}
