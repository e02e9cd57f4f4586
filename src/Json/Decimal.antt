-- ===== src/Json/Decimal.antt =====
-- The digits that `%u` prints stand for the number.
use spiketrace.Prelude.{
  ℕ, zero, suc, ◌+◌, ◌-◌, ◌*◌, ◌/◌, ◌%◌, ◌^◌, ◌<◌, ◌≡◌, refl, [], ◌∷◌, ◌++◌, arith, Bytes,
}
use native.Mathlib.Nat.{pow-suc}
use spiketrace.Json.Values.{decimal_fuel, decimal}

-- the number that digits stand for, after the digits of `n`
unfoldable pub value_of : Bytes → ℕ → ℕ
value_of [] n = n
value_of (c ∷ cs) n = value_of cs (n * 10 + (c - b'0'))

value_of-append :
    (xs : Bytes) (c n : ℕ) → value_of (xs ++ c ∷ []) n ≡ value_of xs n * 10 + (c - b'0')
unfolding value_of
value_of-append [] c n = refl
value_of-append (x ∷ xs) c n = value_of-append xs c (n * 10 + (x - b'0'))

decimal_fuel-value : (k n : ℕ) → n < 10 ^ k → value_of (decimal_fuel k n) 0 ≡ n
unfolding decimal_fuel value_of
decimal_fuel-value zero n h = omega arith
decimal_fuel-value (suc k) n h =
    let front = decimal_fuel k (n / 10) in
    let power : 10 ^ suc k ≡ 10 ^ k * 10 = pow-suc 10 k in
    let less : n / 10 < 10 ^ k = omega (arith, h, power) in
    let ih = decimal_fuel-value k (n / 10) less in
    let joined = value_of-append front (b'0' + n % 10) 0 in ground (arith, ih, joined)

-- `%u` of a 64-bit number prints the digits of that number.
pub decimal-value_of : (n : ℕ) → n < 2 ^ 64 → value_of (decimal n) 0 ≡ n
decimal-value_of n h = decimal_fuel-value 20 n (omega arith)
