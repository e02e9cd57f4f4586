-- ===== src/Config/Toml/Next.antt =====
-- `toml_next_token` of src/config.c. It calls itself behind a comment and behind a closing bracket,
-- both of which it has consumed, so the number of bytes to go bounds the calls.
use spiketrace.Prelude.{
  ℕ, zero, suc, ◌+◌, Bool, true, false, ◌||◌, Option, none, some, [], ◌∷◌, ltb, ◌==◌, if◌then◌else◌,
  length, Bytes,
}
use spiketrace.Prelude.Int.{ℤ}
use spiketrace.Double.{Double}
use spiketrace.Config.Toml.{
  Token, Parser, key_size, is_newline, is_digit, is_alpha, skip_blanks, skip_comment, parse_string,
  parse_integer, parse_float, parse_boolean,
}

-- the first byte of a token, as the code tells them apart
pub data Lead : Type 0 where
  line_end hash opening closing equals other : Lead

abbrev pub lead_of : ℕ → Lead
lead_of c =
    if is_newline c
    then Lead.line_end
    else if c == b'#'
    then Lead.hash
    else if c == b'['
    then Lead.opening
    else if c == b']'
    then Lead.closing
    else if c == b'='
    then Lead.equals
    else Lead.other

abbrev starts_equal : Bytes → Bool
starts_equal [] = false
starts_equal (c ∷ cs) = c == b'='

module _ {F : Type 0} ⦃d : Double F⦄ where
  abbrev pub with_token : Token → Parser F → Parser F
  with_token t p = record p { token = t }

  unfoldable pub skip_whitespace : Parser F → Parser F
  skip_whitespace p =
      let (n, rest) = skip_blanks p.rest 0 in record p { rest = rest; col = p.col + n }

  -- a string in front of an equals sign is a key; a key of 128 bytes or more leaves the buffer
  unfoldable pub key_or_string : Parser F → Parser F
  key_or_string p =
      if starts_equal p.rest
      then record p {
        key_buf = if ltb (length p.str_buf) key_size then p.str_buf else p.key_buf;
        token = Token.key;
      }
      else with_token Token.string p

  unfoldable pub after_string : Bool × Bytes × Bytes → Parser F → Parser F
  after_string (true, str, rest) p =
      key_or_string (skip_whitespace (record p { str_buf = str; rest = rest }))
  after_string (false, str, rest) p = record p { str_buf = str; rest = rest; token = Token.error }

  unfoldable pub string_token : ℕ → Parser F → Parser F
  string_token c p =
      if is_alpha c || (c == b'"')
      then after_string (parse_string p.rest) p
      else with_token Token.error p

  -- a number that `parse_float` refuses goes to `parse_integer`, from the same position
  unfoldable pub after_integer : Option (ℤ × Bytes) → ℕ → Parser F → Parser F
  after_integer (some (n, rest)) c p = record p { token = Token.integer; int_val = n; rest = rest }
  after_integer none c p = string_token c p

  abbrev pub set_float : Option F → Parser F → Parser F
  set_float none p = p
  set_float (some x) p = record p { float_val = x }

  unfoldable pub after_float : Bool × Option F × Bytes → ℕ → Parser F → Parser F
  after_float (true, value, rest) c p = record (set_float value p) {
    token = Token.float;
    rest = rest;
  }
  after_float (false, value, rest) c p = after_integer (parse_integer p.rest) c (set_float value p)

  unfoldable pub number_token : ℕ → Parser F → Parser F
  number_token c p =
      if is_digit c || (c == b'-') then after_float (parse_float p.rest) c p else string_token c p

  unfoldable pub after_boolean : Option (Bool × Bytes) → ℕ → Parser F → Parser F
  after_boolean (some (b, rest)) c p = record p { token = Token.boolean; bool_val = b; rest = rest }
  after_boolean none c p = number_token c p

  unfoldable pub value_token : ℕ → Parser F → Parser F
  value_token c p =
      if (c == b't') || (c == b'f')
      then after_boolean (parse_boolean p.rest) c p
      else number_token c p

  -- `again` is the recursive call
  unfoldable pub token_from : (Parser F → Parser F) → Lead → ℕ → Bytes → Parser F → Parser F
  token_from again Lead.line_end c cs p = record p {
    rest = cs;
    token = Token.newline;
    line = p.line + 1;
    col = 1;
  }
  token_from again Lead.hash c cs p = again (record p { rest = skip_comment (c ∷ cs) })
  token_from again Lead.opening c cs p = record p {
    rest = cs;
    token = Token.table_start;
    col = p.col + 1;
  }
  token_from again Lead.closing c cs p = again (record p { rest = cs; col = p.col + 1 })
  token_from again Lead.equals c cs p = record p { rest = cs; token = Token.equal; col = p.col + 1 }
  token_from again Lead.other c cs p = value_token c p

  unfoldable pub token_at : (Parser F → Parser F) → Bytes → Parser F → Parser F
  token_at again [] p = with_token Token.eof p
  token_at again (c ∷ cs) p = token_from again (lead_of c) c cs p

  unfoldable pub next_token_fuel : ℕ → Parser F → Parser F
  next_token_fuel zero p = with_token Token.error p
  next_token_fuel (suc n) p = let p' = skip_whitespace p in token_at (next_token_fuel n) p'.rest p'

  unfoldable pub toml_next_token : Parser F → Parser F
  toml_next_token p = next_token_fuel (suc (length p.rest)) p
