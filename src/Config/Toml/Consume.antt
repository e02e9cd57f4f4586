-- ===== src/Config/Toml/Consume.antt =====
-- What each piece of the scanner consumes.
use spiketrace.Prelude.{
  ℕ, suc, ◌+◌, ◌≤◌, ◌<◌, ◌≡◌, inl, inr, Bool, true, false, ◌||◌, some, [], ◌∷◌, arith, ◌==◌, length,
  Bytes, Bool-cases, Option-cases, length-take, ◌*◌, ◌-◌, codes,
}
use spiketrace.Prelude.Int.{ℤ}
use spiketrace.Double.{Double}
use spiketrace.Config.Toml.{
  is_digit, is_alpha, skip_blanks, skip_line, skip_comment, quoted, bare, after_quote, parse_string,
  sign, integer_digits, parse_integer, float_digits, parse_float, strip, parse_boolean,
}

-- the pieces of the scanner never lengthen what is to go
pub skip_blanks-le : (cs : Bytes) (n : ℕ) → length (skip_blanks cs n).1 ≤ length cs
unfolding skip_blanks
skip_blanks-le [] n = omega arith
skip_blanks-le (c ∷ cs) n = ground (arith, skip_blanks-le cs (suc n))

pub skip_line-le : (cs : Bytes) → length (skip_line cs) ≤ length cs
unfolding skip_line
skip_line-le [] = omega arith
skip_line-le (c ∷ cs) = ground (arith, skip_line-le cs)

pub comment-lt :
    (c : ℕ) (cs : Bytes) → (c == b'#') ≡ true → length (skip_comment (c ∷ cs)) < length (c ∷ cs)
unfolding skip_comment skip_line
comment-lt c cs h = ground (arith, skip_line-le cs)

pub quoted-le : (cs : Bytes) → length (quoted cs).1 ≤ length cs
unfolding quoted
quoted-le [] = omega arith
quoted-le (c ∷ []) = ground arith
quoted-le (c ∷ e ∷ cs) = ground (arith, quoted-le cs, quoted-le (e ∷ cs))

pub after_quote-le :
    (out : Bytes × Bytes) (cs : Bytes)
    → length out.1 ≤ length cs
    → length (after_quote out).2 ≤ length cs
unfolding after_quote
after_quote-le (s, []) cs h = h
after_quote-le (s, c ∷ rest) cs h = omega arith

pub bare-le : (cs : Bytes) → length (bare cs).1 ≤ length cs
unfolding bare
bare-le [] = omega arith
bare-le (c ∷ cs) = ground (arith, bare-le cs)

pub float_digits-length :
    (cs : Bytes) (dot : Bool)
    → length (float_digits cs dot).0 + length (float_digits cs dot).1 ≡ length cs
unfolding float_digits
float_digits-length [] dot = omega arith
float_digits-length (c ∷ cs) dot = ground (arith, float_digits-length cs (dot || (c == b'.')))

pub sign-le : (cs : Bytes) → length (sign cs).1 ≤ length cs
unfolding sign
sign-le [] = omega arith
sign-le (c ∷ cs) = ground arith

-- what `parse_integer` has read
pub integer_digits-le :
    (cs : Bytes) (val : ℕ) (seen : Bool) (val' : ℕ) (seen' : Bool) (rest : Bytes)
    → integer_digits cs val seen ≡ some (val', seen', rest)
    → (length rest ≤ length cs) × (seen ≡ false → seen' ≡ true → length rest < length cs)
unfolding integer_digits
integer_digits-le [] val seen val' seen' rest h = (ground arith, λ a b. ground arith)
integer_digits-le (c ∷ cs) val seen val' seen' rest h =
    let ih = integer_digits-le cs (val * 10 + (c - b'0')) true val' seen' rest in
    elim (Bool-cases (is_digit c)) [
      | inl digit ↦ (ground (arith, ih), λ a b. ground (arith, ih))
      | inr other ↦ (ground arith, λ a b. ground arith)
    ]

pub parse_integer-lt :
    (cs : Bytes) (n : ℤ) (rest : Bytes)
    → parse_integer cs ≡ some (n, rest)
    → length rest < length cs
unfolding parse_integer
parse_integer-lt cs n rest h = elim (Option-cases (integer_digits (sign cs).1 0 false)) [
  | inl overflow ↦ ground arith
  | inr ((val, seen, rest'), digits) ↦
      ground (arith, integer_digits-le (sign cs).1 0 false val seen rest' digits, sign-le cs)
]

pub parse_string-lt :
    (c : ℕ) (cs : Bytes)
    → (is_alpha c || (c == b'"')) ≡ true
    → length (parse_string (c ∷ cs)).2 < length (c ∷ cs)
unfolding parse_string after_quote bare
parse_string-lt c cs h = elim (Bool-cases (c == b'"')) [
  | inl quote ↦ rw quote (omega (arith, after_quote-le (quoted cs) cs (quoted-le cs)))
  | inr letter ↦ ground (arith, bare-le cs)
]

pub strip-le :
    (s word rest : Bytes) → strip s word ≡ some rest → length rest + length word ≤ length s
unfolding strip
strip-le s [] rest h = ground arith
strip-le [] (b ∷ word) rest h = ground arith
strip-le (a ∷ s) (b ∷ word) rest h = ground (arith, strip-le s word rest)

pub parse_boolean-lt :
    (cs : Bytes) (b : Bool) (rest : Bytes)
    → parse_boolean cs ≡ some (b, rest)
    → length rest < length cs
unfolding parse_boolean
parse_boolean-lt cs b rest h = elim (Option-cases (strip cs (codes "true"))) [
  | inl no_true ↦ elim (Option-cases (strip cs (codes "false"))) [
    | inl no_false ↦ ground arith
    | inr (r, found) ↦ ground (arith, strip-le cs (codes "false") r found)
  ]
  | inr (r, found) ↦ ground (arith, strip-le cs (codes "true") r found)
]

pub parse_float-lt :
    (F : Type 0) ⦃d : Double F⦄ (cs : Bytes)
    → (parse_float {F = F} cs).0 ≡ true
    → length (parse_float {F = F} cs).2 < length cs
unfolding parse_float
parse_float-lt F cs h =
    let cs' = (sign cs).1 in
    ground (
      arith,
      sign-le cs,
      float_digits-length cs' false,
      length-take 62 (float_digits cs' false).0,
      length-take 63 (float_digits cs' false).0,
    )
