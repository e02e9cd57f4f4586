-- ===== src/Sampler/Scan/Numbers.antt =====
-- Numbers printed by `%u` are scanned back.
use spiketrace.Prelude.{
  ℕ, zero, suc, ◌+◌, ◌-◌, ◌*◌, ◌/◌, ◌%◌, ◌^◌, ◌<◌, ◌≡◌, refl, ap, ◌∙◌, true, false, some, List, [],
  ◌∷◌, ◌++◌, arith, ltb, ◌==◌, length, All, Bytes, Bool-cases, inl, inr,
}
use spiketrace.Json.Values.{decimal_fuel, decimal}
use spiketrace.Json.Decimal.{value_of, decimal-value_of}
use spiketrace.Sampler.Scan.{
  is_space, is_digit, skip_space, digits, largest, unsigned, scan_unsigned, scan_many, and_more,
}

abbrev pub IsDigit : ℕ → Type 0
IsDigit c = is_digit c ≡ true

-- the text does not go on with a digit
abbrev pub StopsDigits : Bytes → Type 0
StopsDigits [] = Unit {0}
StopsDigits (c ∷ cs) = is_digit c ≡ false

All-append : (xs ys : Bytes) → All IsDigit xs → All IsDigit ys → All IsDigit (xs ++ ys)
All-append [] ys p q = q
All-append (x ∷ xs) ys (p, ps) q = (p, All-append xs ys ps q)

pub decimal_fuel-digits : (k n : ℕ) → All IsDigit (decimal_fuel k n)
unfolding decimal_fuel
decimal_fuel-digits zero n = tt
decimal_fuel-digits (suc k) n =
    let last : is_digit (b'0' + n % 10) ≡ true = ground arith in
    elim (Bool-cases (n / 10 == 0)) [
      | inl small ↦ rw small (last, tt)
      | inr more ↦ rw more (
          All-append (decimal_fuel k (n / 10)) ((b'0' + n % 10) ∷ [])
            (decimal_fuel-digits k (n / 10)) (last, tt))
    ]

append-nonempty : (xs : Bytes) (c : ℕ) → (d : ℕ) × (ds : Bytes) × (xs ++ c ∷ [] ≡ d ∷ ds)
append-nonempty [] c = (c, [], refl)
append-nonempty (x ∷ xs) c = (x, xs ++ c ∷ [], refl)

pub decimal_nonempty : (n : ℕ) → (d : ℕ) × (ds : Bytes) × (decimal n ≡ d ∷ ds)
unfolding decimal_fuel
decimal_nonempty n = elim (Bool-cases (n / 10 == 0)) [
  | inl small ↦ (b'0' + n % 10, [], rw small refl)
  | inr more ↦
      let (d, ds, e) = append-nonempty (decimal_fuel 19 (n / 10)) (b'0' + n % 10) in
      (d, ds, rw more e)
]

pub digits-append :
    (xs rest : Bytes) (n : ℕ)
    → All IsDigit xs
    → StopsDigits rest
    → digits (xs ++ rest) n ≡ (value_of xs n, rest)
unfolding digits value_of
digits-append [] [] n p h = refl
digits-append [] (c ∷ rest) n p h = rw h refl
digits-append (x ∷ xs) rest n (p, ps) h = rw p (digits-append xs rest (n * 10 + (x - b'0')) ps h)

-- `%llu` behind a space reads what `%u` printed
pub scan_unsigned-decimal :
    (n : ℕ) (rest : Bytes)
    → n < 2 ^ 64
    → StopsDigits rest
    → scan_unsigned (b' ' ∷ (decimal n ++ rest)) ≡ some (n, rest)
unfolding scan_unsigned skip_space
scan_unsigned-decimal n rest small stop =
    let (d, ds, e) = decimal_nonempty n in
    let ok_digits : All IsDigit (d ∷ ds) = rw e at (decimal_fuel-digits 20 n) in
    let first = ok_digits.0 in
    let value : value_of (d ∷ ds) 0 ≡ n = rw e at (decimal-value_of n small) in
    let scanned = digits-append (d ∷ ds) rest 0 ok_digits stop in
    let no_space : is_space d ≡ false = ground arith in
    let no_minus : (d == b'-') ≡ false = ground arith in
    let no_plus : (d == b'+') ≡ false = ground arith in
    let fits : ltb largest n ≡ false = ground arith in
    rw e (
      rw no_space (
        rw no_minus (
          rw no_plus (
            rw first (
              ap (λ o. unsigned false (some o)) (scanned ∙ ap (λ v. (v, rest)) value)
              ∙ rw fits refl)))))

-- numbers, each behind a space
unfoldable pub spaced : List ℕ → Bytes → Bytes
spaced [] rest = rest
spaced (x ∷ xs) rest = b' ' ∷ (decimal x ++ spaced xs rest)

pub spaced-StopsDigits :
    (xs : List ℕ) (rest : Bytes) → StopsDigits rest → StopsDigits (spaced xs rest)
unfolding spaced
spaced-StopsDigits [] rest h = h
spaced-StopsDigits (x ∷ xs) rest h = refl

pub scan_many-spaced :
    (xs : List ℕ) (rest : Bytes)
    → All (λ x. x < 2 ^ 64) xs
    → StopsDigits rest
    → scan_many (length xs) (spaced xs rest) ≡ xs
unfolding scan_many spaced
scan_many-spaced [] rest p h = refl
scan_many-spaced (x ∷ xs) rest (p, ps) h =
    ap (and_more (scan_many (length xs)))
      (scan_unsigned-decimal x (spaced xs rest) p (spaced-StopsDigits xs rest h))
    ∙ ap (◌∷◌ x) (scan_many-spaced xs rest ps h)
