-- ===== src/Config/Load/Ends.antt =====
-- `config_load` ends: the fuel of its loops is enough for any file.
use spiketrace.Prelude.{
  ℕ, zero, suc, ◌≤◌, ◌<◌, ◌≡◌, ◌≢◌, refl, ◌⊎◌, inl, inr, Bool, true, false, not, Option, some, [],
  arith, length, Bytes, Bool-cases, if_both,
}
use spiketrace.Double.{Double}
use spiketrace.Config.Types.{Config}
use spiketrace.Config.Toml.{Token, Parser}
use spiketrace.Config.Toml.Next.{skip_whitespace, toml_next_token}
use spiketrace.Config.Toml.Progress.{is_end, skip_whitespace-le, next_token-Advances}
use spiketrace.Config.Load.{
  is_key, is_equal, is_name, Round, round_of, header_round, after_table, load_round, append_section,
  header_loop, parse_table_header, parse_key_value, key_value_round, load_loop, parser_at,
  parse_config,
}

not_end : (t : Token) (m n : ℕ) → is_name t ≡ true → (is_end t ≡ true) ⊎ (suc m < suc n) → m < n
not_end t m n name (inl ends) = absurd (ground arith)
not_end t m n name (inr h) = omega arith

round-end : (t : Token) → round_of t ≡ Round.done → is_end t ≡ true
round-end t e = ground arith

rounds_left :
    (t : Token) (r : Round) (m n : ℕ)
    → round_of t ≡ r
    → r ≢ Round.done
    → (is_end t ≡ true) ⊎ (suc m < suc n)
    → m < n
rounds_left t r m n e other (inl ends) = absurd (ground arith)
rounds_left t r m n e other (inr h) = omega arith

module _ {F : Type 0} ⦃d : Double F⦄ where
  -- fuel for the rounds that are left: one at the end, and otherwise one for each byte, and two
  abbrev pub Enough : ℕ → Parser F → Type 0
  Enough n p = (0 < n) × ((is_end p.token ≡ true) ⊎ (suc (length p.rest) < n))

  next_token-le : (p : Parser F) → length (toml_next_token p).rest ≤ length p.rest
  next_token-le p = elim (next_token-Advances p) [ inl (ends, le) ↦ le | inr fewer ↦ omega arith ]

  next-Enough : (n : ℕ) (p : Parser F) → length p.rest < n → Enough n (toml_next_token p)
  next-Enough n p h = elim (next_token-Advances p) [
    | inl (ends, le) ↦ (omega arith, inl ends)
    | inr fewer ↦ (omega arith, inr (omega arith))
  ]

  -- a header that is read leaves no more bytes
  header_loop-le :
      (n : ℕ) (section : Bytes) (p : Parser F)
      → Enough n p
      → (section' : Bytes) × (q : Parser F) × (header_loop n section p ≡ some (section', q))
        × (length q.rest ≤ length p.rest)
  unfolding header_loop header_round
  header_loop-le zero section p (pos, h) = absurd (omega arith)
  header_loop-le (suc n) section p (pos, h) = elim (Bool-cases (is_name p.token)) [
    | inl name ↦
        let p' = toml_next_token p in
        let (s, q, e, le) =
          header_loop-le n (append_section section p.str_buf) p'
            (next-Enough n p (not_end p.token (length p.rest) n name h)) in
        (s, q, rw name e, omega (arith, next_token-le p))
    | inr other ↦ (section, p, rw other refl, omega arith)
  ]

  parse_table_header-le :
      (p : Parser F)
      → (section : Bytes) × (q : Parser F) × (parse_table_header p ≡ some (section, q))
        × (length q.rest ≤ length p.rest)
  unfolding parse_table_header
  parse_table_header-le p =
      let p' = toml_next_token p in
      let (s, q, e, le) =
        header_loop-le (suc (suc (length p'.rest))) [] p' (omega arith, inr (omega arith)) in
      (s, q, e, omega (arith, next_token-le p))

  parse_key_value-le : (p : Parser F) → length (parse_key_value p).2.rest ≤ length p.rest
  unfolding parse_key_value
  parse_key_value-le p =
      let p' = skip_whitespace (toml_next_token p) in
      let le : length p'.rest ≤ length p.rest =
        omega (arith, skip_whitespace-le (toml_next_token p), next_token-le p) in
      let Short : Bool × Bytes × Parser F → Type 0 = λ out. length out.2.rest ≤ length p.rest in
      if_both Short (not (is_key p.token)) (omega arith) (
        if_both Short (not (is_equal p'.token)) le
          (omega (arith, skip_whitespace-le (toml_next_token p'), next_token-le p', le)))

  key_value_round-Enough :
      (n : ℕ) (section : Bytes) (config : Config F) (out : Bool × Bytes × Parser F)
      → length out.2.rest < n
      → Enough n (key_value_round section config out).1
  unfolding key_value_round
  key_value_round-Enough n section config (true, key, p) h =
      next-Enough n (toml_next_token p) (omega (arith, next_token-le p))
  key_value_round-Enough n section config (false, key, p) h = next-Enough n p h

  abbrev Ends : Option (Config F × Parser F) → Type 0
  Ends result =
      (config : Config F) × (q : Parser F) × (result ≡ some (config, q)) × (is_end q.token ≡ true)

  load_round-Ends :
      (again : Bytes → Config F → Parser F → Option (Config F × Parser F)) (n : ℕ) (r : Round)
      (section : Bytes) (config : Config F) (p : Parser F)
      → round_of p.token ≡ r
      → Enough (suc n) p
      → ((s : Bytes) (c : Config F) (q : Parser F) → Enough n q → Ends (again s c q))
      → Ends (load_round again r section config p)
  unfolding load_round after_table
  load_round-Ends again n Round.done section config p e h ih =
      (config, p, refl, round-end p.token e)
  load_round-Ends again n Round.table section config p e h ih =
      let (s, q, read, le) = parse_table_header-le p in
      let lt = rounds_left p.token Round.table (length p.rest) n e (λ k. ground arith) h.1 in
      rw read (ih s config (toml_next_token q) (next-Enough n q (omega (arith, le, lt))))
  load_round-Ends again n Round.pair section config p e h ih =
      let lt = rounds_left p.token Round.pair (length p.rest) n e (λ k. ground arith) h.1 in
      let out = key_value_round section config (parse_key_value p) in
      ih section out.0 out.1 (
        key_value_round-Enough n section config (parse_key_value p)
          (omega (arith, parse_key_value-le p, lt)))

  load_loop-Ends :
      (n : ℕ) (section : Bytes) (config : Config F) (p : Parser F)
      → Enough n p
      → Ends (load_loop n section config p)
  unfolding load_loop
  load_loop-Ends zero section config p (pos, h) = absurd (omega arith)
  load_loop-Ends (suc n) section config p h =
      load_round-Ends (load_loop n) n (round_of p.token) section config p refl h (load_loop-Ends n)

  -- Whatever the file holds, the loop of `config_load` ends: its fuel, the number of bytes and two
  -- more, suffices, and the token at the end is that of the end of the file or of an error.
  pub parse_config_ends :
      (config : Config F) (text : Bytes)
      → (config' : Config F) × (p : Parser F) × (parse_config config text ≡ some (config', p))
        × (is_end p.token ≡ true)
  unfolding parse_config
  parse_config_ends config text =
      load_loop-Ends (suc (suc (length text))) [] config (toml_next_token (parser_at text))
        (next-Enough (suc (suc (length text))) (parser_at text) (omega arith))
