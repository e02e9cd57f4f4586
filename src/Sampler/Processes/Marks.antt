-- ===== src/Sampler/Processes/Marks.antt =====
-- Printed integers are scanned back, and the marks around a name are found.
use spiketrace.Prelude.{
  ℕ, suc, ◌+◌, ◌^◌, ◌<◌, ◌≡◌, refl, ap, ◌∙◌, true, false, none, some, List, [], ◌∷◌, ◌++◌, arith,
  ◌==◌, length, All, Bytes, ◌>>=◌,
}
use spiketrace.Prelude.Int.{ℤ, pos, negsuc, ◌-ℤ◌, pos_part, neg_part}
use spiketrace.Json.Values.{decimal, signed}
use spiketrace.Json.Decimal.{value_of, decimal-value_of}
use spiketrace.Sampler.Scan.{is_space, skip_space, number, signed_by, scan_int}
use spiketrace.Sampler.Scan.Numbers.{
  IsDigit, StopsDigits, decimal_fuel-digits, decimal_nonempty, digits-append, scan_unsigned-decimal,
  spaced, spaced-StopsDigits,
}
use spiketrace.Sampler.Processes.Parse.{
  behind_first, or_here, around_last, skip_ints, skip_unsigned,
}

abbrev pub Fits : ℤ → Type 0
Fits z = pos_part z + neg_part z < 2 ^ 64

-- a number of digits, in front of what is no digit
number-decimal :
    (n : ℕ) (rest : Bytes)
    → n < 2 ^ 64
    → StopsDigits rest
    → number (decimal n ++ rest) ≡ some (n, rest)
number-decimal n rest small stop =
    let (c, cs, e) = decimal_nonempty n in
    let ok_digits : All IsDigit (c ∷ cs) = rw e at (decimal_fuel-digits 20 n) in
    let first = ok_digits.0 in
    let value : value_of (c ∷ cs) 0 ≡ n = rw e at (decimal-value_of n small) in
    rw e (
      rw first (ap some (digits-append (c ∷ cs) rest 0 ok_digits stop ∙ ap (λ v. (v, rest)) value)))

int_then-decimal :
    (n : ℕ) (rest : Bytes)
    → n < 2 ^ 64
    → StopsDigits rest
    → scan_int (b' ' ∷ (decimal n ++ rest)) ≡ some (pos n, rest)
unfolding scan_int skip_space
int_then-decimal n rest small stop =
    let (c, cs, e) = decimal_nonempty n in
    let ok_digits : All IsDigit (c ∷ cs) = rw e at (decimal_fuel-digits 20 n) in
    let first = ok_digits.0 in
    let num : number (c ∷ (cs ++ rest)) ≡ some (n, rest) =
      rw e at (number-decimal n rest small stop) in
    let no_space : is_space c ≡ false = ground arith in
    let no_minus : (c == b'-') ≡ false = ground arith in
    let no_plus : (c == b'+') ≡ false = ground arith in
    rw e (rw no_space (rw no_minus (rw no_plus (ap (signed_by false) num))))

-- `%d` behind a space reads what `%d` printed
pub scan_int-signed :
    (z : ℤ) (rest : Bytes)
    → Fits z
    → StopsDigits rest
    → scan_int (b' ' ∷ (signed z ++ rest)) ≡ some (z, rest)
unfolding scan_int skip_space signed
scan_int-signed (pos n) rest small stop = int_then-decimal n rest (omega arith) stop
scan_int-signed (negsuc n) rest small stop =
    let minus : pos 0 -ℤ pos (suc n) ≡ negsuc n = ground arith in
    ap (signed_by true) (number-decimal (suc n) rest (omega arith) stop)
    ∙ ap (λ z. some (z, rest)) minus

-- integers, each behind a space
unfoldable pub spaced_ints : List ℤ → Bytes → Bytes
spaced_ints [] rest = rest
spaced_ints (z ∷ zs) rest = b' ' ∷ (signed z ++ spaced_ints zs rest)

pub spaced_ints-StopsDigits :
    (zs : List ℤ) (rest : Bytes) → StopsDigits rest → StopsDigits (spaced_ints zs rest)
unfolding spaced_ints
spaced_ints-StopsDigits [] rest h = h
spaced_ints-StopsDigits (z ∷ zs) rest h = refl

pub skip_ints-spaced :
    (zs : List ℤ) (rest : Bytes)
    → All Fits zs
    → StopsDigits rest
    → skip_ints (length zs) (spaced_ints zs rest) ≡ some rest
unfolding skip_ints spaced_ints
skip_ints-spaced [] rest p h = refl
skip_ints-spaced (z ∷ zs) rest (p, ps) h =
    ap (λ o. o >>= λ r. skip_ints (length zs) r.1)
      (scan_int-signed z (spaced_ints zs rest) p (spaced_ints-StopsDigits zs rest h))
    ∙ skip_ints-spaced zs rest ps h

pub skip_unsigned-spaced :
    (xs : List ℕ) (rest : Bytes)
    → All (λ x. x < 2 ^ 64) xs
    → StopsDigits rest
    → skip_unsigned (length xs) (spaced xs rest) ≡ some rest
unfolding skip_unsigned spaced
skip_unsigned-spaced [] rest p h = refl
skip_unsigned-spaced (x ∷ xs) rest (p, ps) h =
    ap (λ o. o >>= λ r. skip_unsigned (length xs) r.1)
      (scan_unsigned-decimal x (spaced xs rest) p (spaced-StopsDigits xs rest h))
    ∙ skip_unsigned-spaced xs rest ps h

-- the byte does not stand in the text
abbrev pub Avoids : ℕ → Bytes → Type 0
Avoids c = All (λ b. (b == c) ≡ false)

pub behind_first-append :
    (c : ℕ) (before rest : Bytes)
    → Avoids c before
    → behind_first c (before ++ c ∷ rest) ≡ some rest
unfolding behind_first
behind_first-append c [] rest h = let same : (c == c) ≡ true = ground arith in rw same refl
behind_first-append c (b ∷ before) rest (h, hs) = rw h (behind_first-append c before rest hs)

around_last-none : (c : ℕ) (rest : Bytes) → Avoids c rest → around_last c rest ≡ none
unfolding around_last
around_last-none c [] h = refl
around_last-none c (b ∷ rest) (h, hs) =
    ap (or_here c b rest) (around_last-none c rest hs) ∙ rw h refl

pub around_last-append :
    (c : ℕ) (name rest : Bytes)
    → Avoids c rest
    → around_last c (name ++ c ∷ rest) ≡ some (name, rest)
unfolding around_last
around_last-append c [] rest h =
    let same : (c == c) ≡ true = ground arith in
    ap (or_here c c rest) (around_last-none c rest h) ∙ rw same refl
around_last-append c (b ∷ name) rest h =
    ap (or_here c b (name ++ c ∷ rest)) (around_last-append c name rest h)

Avoids-append : (c : ℕ) (xs ys : Bytes) → Avoids c xs → Avoids c ys → Avoids c (xs ++ ys)
Avoids-append c [] ys p q = q
Avoids-append c (x ∷ xs) ys (p, ps) q = (p, Avoids-append c xs ys ps q)

digits-Avoids : (xs : Bytes) → All IsDigit xs → Avoids b')' xs
digits-Avoids [] p = tt
digits-Avoids (x ∷ xs) (p, ps) = (ground arith, digits-Avoids xs ps)

signed-Avoids : (z : ℤ) → Avoids b')' (signed z)
unfolding signed
signed-Avoids (pos n) = digits-Avoids (decimal n) (decimal_fuel-digits 20 n)
signed-Avoids (negsuc n) = (refl, digits-Avoids (decimal (suc n)) (decimal_fuel-digits 20 (suc n)))

pub spaced_ints-Avoids :
    (zs : List ℤ) (rest : Bytes) → Avoids b')' rest → Avoids b')' (spaced_ints zs rest)
unfolding spaced_ints
spaced_ints-Avoids [] rest h = h
spaced_ints-Avoids (z ∷ zs) rest h = (
  refl,
  Avoids-append b')' (signed z) (spaced_ints zs rest) (signed-Avoids z)
      (spaced_ints-Avoids zs rest h),
)

pub spaced-Avoids : (xs : List ℕ) (rest : Bytes) → Avoids b')' rest → Avoids b')' (spaced xs rest)
unfolding spaced
spaced-Avoids [] rest h = h
spaced-Avoids (x ∷ xs) rest h = (
  refl,
  Avoids-append b')' (decimal x) (spaced xs rest)
      (digits-Avoids (decimal x) (decimal_fuel-digits 20 x)) (spaced-Avoids xs rest h),
)
