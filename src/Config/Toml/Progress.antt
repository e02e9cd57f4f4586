-- ===== src/Config/Toml/Progress.antt =====
-- Every call of `toml_next_token` ends, and consumes something unless it reports the end or an error.
use spiketrace.Prelude.{
  ℕ, zero, suc, ◌+◌, ◌≤◌, ◌<◌, ◌≡◌, refl, ap, sym, ◌∙◌, ◌⊎◌, inl, inr, Bool, true, false, ◌||◌,
  Option, none, some, [], ◌∷◌, arith, ◌==◌, length, Bytes, Bool-cases, if_both,
}
use spiketrace.Prelude.Int.{ℤ}
use spiketrace.Double.{Double}
use spiketrace.Config.Toml.{
  Token, Parser, is_digit, is_alpha, skip_comment, parse_string, parse_integer, parse_float,
  parse_boolean,
}
use spiketrace.Config.Toml.Next.{
  Lead, lead_of, set_float, skip_whitespace, key_or_string, after_string, string_token,
  after_integer, after_float, number_token, after_boolean, value_token, token_from, token_at,
  next_token_fuel, toml_next_token,
}
use spiketrace.Config.Toml.Consume.{
  skip_blanks-le, comment-lt, parse_float-lt, parse_integer-lt, parse_string-lt, parse_boolean-lt,
}

abbrev pub is_end : Token → Bool
is_end Token.eof = true
is_end Token.error = true
is_end _ = false

module _ {F : Type 0} ⦃d : Double F⦄ where
  -- fewer bytes to go, or the end of the file or an error and no more bytes to go
  abbrev pub Advances : Bytes → Parser F → Type 0
  Advances cs p =
      ((is_end p.token ≡ true) × (length p.rest ≤ length cs)) ⊎ (length p.rest < length cs)

  Advances-le :
      (cs cs' : Bytes) (p : Parser F) → length cs ≤ length cs' → Advances cs p → Advances cs' p
  Advances-le cs cs' p h (inl (ends, le)) = inl (ends, omega arith)
  Advances-le cs cs' p h (inr fewer) = inr (omega arith)

  Advances-lt :
      (cs cs' : Bytes) (p : Parser F) → length cs < length cs' → Advances cs p → Advances cs' p
  Advances-lt cs cs' p h a = Advances-le cs cs' p (omega arith) a

  pub skip_whitespace-le : (p : Parser F) → length (skip_whitespace p).rest ≤ length p.rest
  unfolding skip_whitespace
  skip_whitespace-le p = skip_blanks-le p.rest 0

  key_or_string-rest : (p : Parser F) → length (key_or_string p).rest ≡ length p.rest
  unfolding key_or_string
  key_or_string-rest p = ground arith

  after_string-Advances :
      (cs : Bytes) (out : Bool × Bytes × Bytes) (p : Parser F)
      → length out.2 < length cs
      → Advances cs (after_string out p)
  unfolding after_string
  after_string-Advances cs (true, str, rest) p h =
      let p' = record p { str_buf = str; rest = rest } in
      inr (omega (arith, key_or_string-rest (skip_whitespace p'), skip_whitespace-le p'))
  after_string-Advances cs (false, str, rest) p h = inl (refl, omega arith)

  string_token-Advances :
      (c : ℕ) (cs : Bytes) (p : Parser F) → p.rest ≡ c ∷ cs → Advances (c ∷ cs) (string_token c p)
  unfolding string_token
  string_token-Advances c cs p e = elim (Bool-cases (is_alpha c || (c == b'"'))) [
    | inl starts ↦
        let lt : length (parse_string p.rest).2 < length (c ∷ cs) =
          rw e (parse_string-lt c cs starts) in
        rw starts (after_string-Advances (c ∷ cs) (parse_string p.rest) p lt)
    | inr other ↦ rw other (inl (refl, omega (arith, ap length e)))
  ]

  after_integer-Advances :
      (c : ℕ) (cs : Bytes) (out : Option (ℤ × Bytes)) (p : Parser F)
      → p.rest ≡ c ∷ cs
      → parse_integer (c ∷ cs) ≡ out
      → Advances (c ∷ cs) (after_integer out c p)
  unfolding after_integer
  after_integer-Advances c cs none p e h = string_token-Advances c cs p e
  after_integer-Advances c cs (some (n, rest)) p e h = inr (parse_integer-lt (c ∷ cs) n rest h)

  set_float-rest : (x : Option F) (p : Parser F) → (set_float x p).rest ≡ p.rest
  set_float-rest none p = refl
  set_float-rest (some x) p = refl

  after_float-Advances :
      (c : ℕ) (cs : Bytes) (out : Bool × Option F × Bytes) (p : Parser F)
      → p.rest ≡ c ∷ cs
      → (out.0 ≡ true → length out.2 < length (c ∷ cs))
      → Advances (c ∷ cs) (after_float out c p)
  unfolding after_float
  after_float-Advances c cs (true, value, rest) p e h = inr (h refl)
  after_float-Advances c cs (false, value, rest) p e h =
      after_integer-Advances c cs (parse_integer p.rest) (set_float value p)
        (set_float-rest value p ∙ e) (ap parse_integer (sym e))

  number_token-Advances :
      (c : ℕ) (cs : Bytes) (p : Parser F) → p.rest ≡ c ∷ cs → Advances (c ∷ cs) (number_token c p)
  unfolding number_token
  number_token-Advances c cs p e =
      let read : (parse_float {F = F} p.rest).0 ≡ true
          → length (parse_float {F = F} p.rest).2 < length (c ∷ cs) =
        rw e (parse_float-lt F (c ∷ cs)) in
      if_both (Advances (c ∷ cs)) (is_digit c || (c == b'-'))
        (after_float-Advances c cs (parse_float p.rest) p e read) (string_token-Advances c cs p e)

  after_boolean-Advances :
      (c : ℕ) (cs : Bytes) (out : Option (Bool × Bytes)) (p : Parser F)
      → p.rest ≡ c ∷ cs
      → parse_boolean (c ∷ cs) ≡ out
      → Advances (c ∷ cs) (after_boolean out c p)
  unfolding after_boolean
  after_boolean-Advances c cs none p e h = number_token-Advances c cs p e
  after_boolean-Advances c cs (some (b, rest)) p e h = inr (parse_boolean-lt (c ∷ cs) b rest h)

  value_token-Advances :
      (c : ℕ) (cs : Bytes) (p : Parser F) → p.rest ≡ c ∷ cs → Advances (c ∷ cs) (value_token c p)
  unfolding value_token
  value_token-Advances c cs p e =
      if_both (Advances (c ∷ cs)) ((c == b't') || (c == b'f'))
        (after_boolean-Advances c cs (parse_boolean p.rest) p e (ap parse_boolean (sym e)))
        (number_token-Advances c cs p e)

  token_from-Advances :
      (again : Parser F → Parser F) (lead : Lead) (c : ℕ) (cs : Bytes) (p : Parser F)
      → lead_of c ≡ lead
      → p.rest ≡ c ∷ cs
      → ((q : Parser F) → length q.rest < length (c ∷ cs) → Advances q.rest (again q))
      → Advances (c ∷ cs) (token_from again lead c cs p)
  unfolding token_from
  token_from-Advances again Lead.line_end c cs p l e h = inr (omega arith)
  token_from-Advances again Lead.hash c cs p l e h =
      let lt : length (skip_comment (c ∷ cs)) < length (c ∷ cs) = comment-lt c cs (ground arith) in
      let q = record p { rest = skip_comment (c ∷ cs) } in
      Advances-lt q.rest (c ∷ cs) (again q) lt (h q lt)
  token_from-Advances again Lead.opening c cs p l e h = inr (omega arith)
  token_from-Advances again Lead.closing c cs p l e h =
      let q = record p { rest = cs; col = p.col + 1 } in
      Advances-lt cs (c ∷ cs) (again q) (omega arith) (h q (omega arith))
  token_from-Advances again Lead.equals c cs p l e h = inr (omega arith)
  token_from-Advances again Lead.other c cs p l e h = value_token-Advances c cs p e

  token_at-Advances :
      (again : Parser F → Parser F) (cs : Bytes) (p : Parser F)
      → p.rest ≡ cs
      → ((q : Parser F) → length q.rest < length cs → Advances q.rest (again q))
      → Advances cs (token_at again cs p)
  unfolding token_at
  token_at-Advances again [] p e h = inl (refl, omega (arith, ap length e))
  token_at-Advances again (c ∷ cs) p e h = token_from-Advances again (lead_of c) c cs p refl e h

  next_token_fuel-Advances : (n : ℕ) (p : Parser F) → Advances p.rest (next_token_fuel n p)
  unfolding next_token_fuel
  next_token_fuel-Advances zero p = inl (refl, omega arith)
  next_token_fuel-Advances (suc n) p =
      Advances-le (skip_whitespace p).rest p.rest (next_token_fuel (suc n) p) (skip_whitespace-le p)
        (token_at-Advances (next_token_fuel n) (skip_whitespace p).rest (skip_whitespace p) refl
          (λ q _. next_token_fuel-Advances n q))

  -- `toml_next_token` leaves fewer bytes to go, or reports the end of the file or an error and
  -- leaves no more.
  pub next_token-Advances : (p : Parser F) → Advances p.rest (toml_next_token p)
  unfolding toml_next_token
  next_token-Advances p = next_token_fuel-Advances (suc (length p.rest)) p
