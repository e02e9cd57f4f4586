-- ===== src/Double.antt =====
-- What the daemon does with a `double`, as an interface. Arithmetic stays abstract; comparison has
-- the laws of IEEE 754, in which a NaN is a value that is not `<=` itself.
pub mod Fixed
use spiketrace.Prelude.{◌<◌, ◌≤◌, ◌*◌, ℕ, Bool, true, false, not, ◌≡◌, List}

pub record Double (F : Type 0) : Type 0 where
  -- the literal nearest to the quotient of its arguments, as in `literal 2 10` for 0.2
  pub literal : ℕ → ℕ → F
  -- `(double)u` of an unsigned number, and the cast back, which drops the fraction
  pub of_ℕ : ℕ → F
  pub to_ℕ : F → ℕ
  pub add : F → F → F
  pub sub : F → F → F
  pub mul : F → F → F
  pub div : F → F → F
  pub lt : F → F → Bool
  pub le : F → F → Bool
  pub eq : F → F → Bool
  -- the bytes of `"%.2f"`
  pub print : F → List ℕ

-- 0.0
abbrev pub nought : {F : Type 0} ⦃d : Double F⦄ → F
nought ⦃d⦄ = d.literal 0 1

-- `x != x`
abbrev pub is_nan : {F : Type 0} ⦃d : Double F⦄ → F → Bool
is_nan ⦃d⦄ x = not (d.eq x x)

pub record IsOrdered (F : Type 0) ⦃d : Double F⦄ : Type 0 where
  pub lt_irrefl : (x : F) → d.lt x x ≡ false
  pub le_of_lt : (x y : F) → d.lt x y ≡ true → d.le x y ≡ true
  pub le_trans : (x y z : F) → d.le x y ≡ true → d.le y z ≡ true → d.le x z ≡ true
  pub lt-le_trans : (x y z : F) → d.lt x y ≡ true → d.le y z ≡ true → d.lt x z ≡ true
  pub lt-eq-not-le : (x y : F) → d.le x x ≡ true → d.le y y ≡ true → d.lt x y ≡ not (d.le y x)
  pub le-self-eq-eq : (x : F) → d.le x x ≡ d.eq x x
  -- only numbers compare
  pub le-eq : (x y : F) → d.le x y ≡ true → (d.eq x x ≡ true) × (d.eq y y ≡ true)
  -- rounding to the nearest double keeps the order
  pub le-literal :
      (a b c e : ℕ) → 0 < b → 0 < e → a * e ≤ c * b → d.le (d.literal a b) (d.literal c e) ≡ true
