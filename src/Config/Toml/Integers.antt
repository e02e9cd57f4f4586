-- ===== src/Config/Toml/Integers.antt =====
-- The integers that `parse_float` leaves to `parse_integer`: there are none.
use spiketrace.Prelude.{
  ℕ, zero, suc, ◌≡◌, ◌≢◌, refl, Bool, true, false, ◌||◌, Option, none, some, [], ◌∷◌, arith, ◌==◌,
  length, take, Bytes, Bool-cases, if_both, inl, inr,
}
use spiketrace.Double.{Double}
use spiketrace.Config.Toml.{
  Token, Parser, is_alpha, is_digit, sign, integer_digits, parse_integer, float_digits, has_digit,
  parse_float, parse_string, parse_boolean,
}
use spiketrace.Config.Toml.Next.{
  Lead, lead_of, set_float, skip_whitespace, key_or_string, after_string, string_token,
  after_integer, after_float, number_token, after_boolean, value_token, token_from, token_at,
  next_token_fuel, toml_next_token,
}

-- whether the text starts with a digit
abbrev digit_first : Bytes → Bool
digit_first [] = false
digit_first (c ∷ cs) = is_digit c

integer_digits-none :
    (cs : Bytes) → digit_first cs ≡ false → integer_digits cs 0 false ≡ some (0, false, cs)
unfolding integer_digits
integer_digits-none [] h = refl
integer_digits-none (c ∷ cs) h = rw h refl

parse_integer-none : (cs : Bytes) → digit_first (sign cs).1 ≡ false → parse_integer cs ≡ none
unfolding parse_integer
parse_integer-none cs h = ground (arith, integer_digits-none (sign cs).1 h)

has_digit-first :
    (n : ℕ) (cs : Bytes)
    → digit_first cs ≡ true
    → has_digit (take (suc n) (float_digits cs false).0) ≡ true
unfolding has_digit float_digits
has_digit-first n [] h = ground arith
has_digit-first n (c ∷ cs) h = ground arith

length-first :
    (n : ℕ) (cs : Bytes)
    → digit_first cs ≡ true
    → (length (take (suc n) (float_digits cs false).0) == 0) ≡ false
unfolding float_digits
length-first n [] h = ground arith
length-first n (c ∷ cs) h = ground arith

parse_float-first :
    (F : Type 0) ⦃d : Double F⦄ (cs : Bytes)
    → digit_first (sign cs).1 ≡ true
    → (parse_float {F = F} cs).0 ≡ true
unfolding parse_float
parse_float-first F cs h = elim (Bool-cases (sign cs).0) [
  | inl negative ↦
      rw negative (ground (arith, has_digit-first 61 (sign cs).1 h, length-first 61 (sign cs).1 h))
  | inr positive ↦
      rw positive (ground (arith, has_digit-first 62 (sign cs).1 h, length-first 62 (sign cs).1 h))
]

refused :
    (F : Type 0) ⦃d : Double F⦄ (cs : Bytes)
    → (parse_float {F = F} cs).0 ≡ false
    → parse_integer cs ≡ none
refused F cs h = elim (Bool-cases (digit_first (sign cs).1)) [
  | inl digit ↦ absurd (ground (arith, parse_float-first F cs digit))
  | inr other ↦ parse_integer-none cs other
]

module _ {F : Type 0} ⦃d : Double F⦄ where
  abbrev NotInteger : Parser F → Type 0
  NotInteger p = p.token ≢ Token.integer

  key_or_string-NotInteger : (p : Parser F) → NotInteger (key_or_string p)
  unfolding key_or_string
  key_or_string-NotInteger p e = ground arith

  after_string-NotInteger :
      (out : Bool × Bytes × Bytes) (p : Parser F) → NotInteger (after_string out p)
  unfolding after_string
  after_string-NotInteger (true, str, rest) p =
      key_or_string-NotInteger (skip_whitespace (record p { str_buf = str; rest = rest }))
  after_string-NotInteger (false, str, rest) p = λ e. ground arith

  string_token-NotInteger : (c : ℕ) (p : Parser F) → NotInteger (string_token c p)
  unfolding string_token
  string_token-NotInteger c p =
      if_both NotInteger (is_alpha c || (c == b'"'))
        (after_string-NotInteger (parse_string p.rest) p) (λ e. ground arith)

  after_float-NotInteger :
      (out : Bool × Option F × Bytes) (c : ℕ) (p : Parser F)
      → (out.0 ≡ false → parse_integer p.rest ≡ none)
      → NotInteger (after_float out c p)
  unfolding after_float after_integer
  after_float-NotInteger (true, value, rest) c p h = λ e. ground arith
  after_float-NotInteger (false, value, rest) c p h =
      rw (h refl) (string_token-NotInteger c (set_float value p))

  number_token-NotInteger : (c : ℕ) (p : Parser F) → NotInteger (number_token c p)
  unfolding number_token
  number_token-NotInteger c p =
      if_both NotInteger (is_digit c || (c == b'-'))
        (after_float-NotInteger (parse_float p.rest) c p (refused F p.rest))
        (string_token-NotInteger c p)

  after_boolean-NotInteger :
      (out : Option (Bool × Bytes)) (c : ℕ) (p : Parser F) → NotInteger (after_boolean out c p)
  unfolding after_boolean
  after_boolean-NotInteger none c p = number_token-NotInteger c p
  after_boolean-NotInteger (some (b, rest)) c p = λ e. ground arith

  value_token-NotInteger : (c : ℕ) (p : Parser F) → NotInteger (value_token c p)
  unfolding value_token
  value_token-NotInteger c p =
      if_both NotInteger ((c == b't') || (c == b'f'))
        (after_boolean-NotInteger (parse_boolean p.rest) c p) (number_token-NotInteger c p)

  token_from-NotInteger :
      (again : Parser F → Parser F) (lead : Lead) (c : ℕ) (cs : Bytes) (p : Parser F)
      → ((q : Parser F) → NotInteger (again q))
      → NotInteger (token_from again lead c cs p)
  unfolding token_from
  token_from-NotInteger again Lead.line_end c cs p h = λ e. ground arith
  token_from-NotInteger again Lead.hash c cs p h = h _
  token_from-NotInteger again Lead.opening c cs p h = λ e. ground arith
  token_from-NotInteger again Lead.closing c cs p h = h _
  token_from-NotInteger again Lead.equals c cs p h = λ e. ground arith
  token_from-NotInteger again Lead.other c cs p h = value_token-NotInteger c p

  token_at-NotInteger :
      (again : Parser F → Parser F) (cs : Bytes) (p : Parser F)
      → ((q : Parser F) → NotInteger (again q))
      → NotInteger (token_at again cs p)
  unfolding token_at
  token_at-NotInteger again [] p h = λ e. ground arith
  token_at-NotInteger again (c ∷ cs) p h = token_from-NotInteger again (lead_of c) c cs p h

  next_token_fuel-NotInteger : (n : ℕ) (p : Parser F) → NotInteger (next_token_fuel n p)
  unfolding next_token_fuel
  next_token_fuel-NotInteger zero p = λ e. ground arith
  next_token_fuel-NotInteger (suc n) p =
      token_at-NotInteger (next_token_fuel n) (skip_whitespace p).rest (skip_whitespace p)
        (next_token_fuel-NotInteger n)

  -- `toml_next_token` never reports an integer: `parse_float` accepts all that starts with a digit,
  -- or with a minus sign and a digit, and `parse_integer` refuses all else.
  pub next_token_never_integer : (p : Parser F) → (toml_next_token p).token ≢ Token.integer
  unfolding toml_next_token
  next_token_never_integer p = next_token_fuel-NotInteger (suc (length p.rest)) p
