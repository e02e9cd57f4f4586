-- ===== src/Config/Toml.antt =====
-- The scanner of src/config.c. The parser's position is the suffix of the file that is still to be
-- read. Its buffers hold their used prefix, cut where the code stops writing.
pub mod Next
pub mod Consume
pub mod Progress
pub mod Integers
use spiketrace.Prelude.{
  ℕ, zero, suc, ◌+◌, ◌-◌, ◌*◌, ◌/◌, ◌^◌, Bool, true, false, not, ◌&&◌, ◌||◌, Option, none, some, [],
  ◌∷◌, ltb, leb, ◌==◌, if◌then◌else◌, length, take, Bytes, codes,
}
use spiketrace.Prelude.Int.{ℤ, pos, ◌-ℤ◌}
use spiketrace.Double.{Double, nought}

-- `toml_token_type_t`, without the prefix TOML_TOK_
pub data Token : Type 0 where
  nothing key string integer float boolean table_start equal newline eof error : Token

-- `toml_parser_t`
pub record Parser (F : Type 0) : Type 0 where
  pub rest : Bytes
  pub token : Token
  pub key_buf : Bytes
  pub str_buf : Bytes
  pub int_val : ℤ
  pub float_val : F
  pub bool_val : Bool
  pub line : ℕ
  pub col : ℕ

abbrev pub key_size : ℕ
key_size = 128

abbrev pub str_size : ℕ
str_size = 256

abbrev pub is_whitespace : ℕ → Bool
is_whitespace c = (c == b' ') || (c == 9) || (c == 13)

abbrev pub is_newline : ℕ → Bool
is_newline c = c == 10

abbrev pub is_digit : ℕ → Bool
is_digit c = leb b'0' c && leb c b'9'

abbrev pub is_alpha : ℕ → Bool
is_alpha c = (leb b'a' c && leb c b'z') || (leb b'A' c && leb c b'Z') || (c == b'_')

-- the bytes after the blanks, and how many there were
unfoldable pub skip_blanks : Bytes → ℕ → ℕ × Bytes
skip_blanks [] n = (n, [])
skip_blanks (c ∷ cs) n = if is_whitespace c then skip_blanks cs (suc n) else (n, c ∷ cs)

unfoldable pub skip_line : Bytes → Bytes
skip_line [] = []
skip_line (c ∷ cs) = if is_newline c then c ∷ cs else skip_line cs

-- `skip_comment`, which does nothing unless it starts at a #
unfoldable pub skip_comment : Bytes → Bytes
skip_comment [] = []
skip_comment (c ∷ cs) = if c == b'#' then skip_line (c ∷ cs) else c ∷ cs

abbrev pub unescape : ℕ → ℕ
unescape c = if c == b'n' then 10 else if c == b't' then 9 else if c == b'r' then 13 else c

-- The loop of a quoted string: what it collects, and the bytes from the closing quote on, which
-- are none if there is no such quote. A backslash that ends the file is an ordinary byte.
unfoldable pub quoted : Bytes → Bytes × Bytes
quoted [] = ([], [])
quoted (c ∷ []) = if c == b'"' then ([], c ∷ []) else (c ∷ [], [])
quoted (c ∷ e ∷ cs) =
    let (s, rest) = quoted cs in
    let (s', rest') = quoted (e ∷ cs) in
    if c == b'"'
    then ([], c ∷ e ∷ cs)
    else if c == b'\\'
    then (unescape e ∷ s, rest)
    else (c ∷ s', rest')

abbrev pub is_bare : ℕ → Bool
is_bare c =
    not (is_whitespace c)
    && not (c == b'=')
    && not (c == b']')
    && not (c == b'#')
    && not (is_newline c)

unfoldable pub bare : Bytes → Bytes × Bytes
bare [] = ([], [])
bare (c ∷ cs) = let (s, rest) = bare cs in if is_bare c then (c ∷ s, rest) else ([], c ∷ cs)

-- behind the closing quote, if there is one
unfoldable pub after_quote : Bytes × Bytes → Bool × Bytes × Bytes
after_quote (s, []) = (false, take 255 s, [])
after_quote (s, c ∷ cs) = (true, take 255 s, cs)

-- `parse_string`: whether it succeeds, `str_buf`, and the bytes to go
unfoldable pub parse_string : Bytes → Bool × Bytes × Bytes
parse_string [] = (false, [], [])
parse_string (c ∷ cs) =
    if c == b'"'
    then after_quote (quoted cs)
    else (let (s, rest) = bare (c ∷ cs) in (true, take 255 s, rest))

-- the digits of `parse_integer`; `none` for an overflow
unfoldable pub integer_digits : Bytes → ℕ → Bool → Option (ℕ × Bool × Bytes)
integer_digits [] val has_digit = some (val, has_digit, [])
integer_digits (c ∷ cs) val has_digit =
    if is_digit c
    then (if ltb ((2 ^ 63 - 1 - (c - b'0')) / 10) val
        then none
        else integer_digits cs (val * 10 + (c - b'0')) true)
    else some (val, has_digit, c ∷ cs)

unfoldable pub sign : Bytes → Bool × Bytes
sign [] = (false, [])
sign (c ∷ cs) = if c == b'-' then (true, cs) else (false, c ∷ cs)

-- `parse_integer`: the value and the bytes to go
unfoldable pub parse_integer : Bytes → Option (ℤ × Bytes)
parse_integer cs =
    let (negative, cs') = sign cs in
    elim (integer_digits cs' 0 false) [
      | none ↦ none
      | some (val, has_digit, rest) ↦
          if has_digit then some (if negative then pos 0 -ℤ pos val else pos val, rest) else none
    ]

-- the digits of `parse_float`, with at most one dot
unfoldable pub float_digits : Bytes → Bool → Bytes × Bytes
float_digits [] has_dot = ([], [])
float_digits (c ∷ cs) has_dot =
    let (s, rest) = float_digits cs (has_dot || (c == b'.')) in
    if (is_digit c || (c == b'.')) && not ((c == b'.') && has_dot)
    then (c ∷ s, rest)
    else ([], c ∷ cs)

-- `strtod` on digits with at most one dot: the digits as a number, and the power of ten below
unfoldable pub mantissa : Bytes → ℕ → ℕ
mantissa [] n = n
mantissa (c ∷ cs) n = mantissa cs (if is_digit c then n * 10 + (c - b'0') else n)

unfoldable pub scale : Bytes → Bool → ℕ
scale [] dotted = 1
scale (c ∷ cs) dotted =
    let below = scale cs (dotted || (c == b'.')) in
    if dotted && is_digit c then 10 * below else below

unfoldable pub has_digit : Bytes → Bool
has_digit [] = false
has_digit (c ∷ cs) = is_digit c || has_digit cs

module _ {F : Type 0} ⦃d : Double F⦄ where
  unfoldable pub strtod : Bool → Bytes → F
  strtod negative digits =
      let value = d.literal (mantissa digits 0) (scale digits false) in
      if negative then d.sub nought value else value

  -- `parse_float`: whether it succeeds, the new `float_val` if it gets as far as `strtod`, and the
  -- bytes to go. The buffer has room for 63 bytes, the sign among them; `strtod` reads all of it if
  -- it has a digit, and nothing otherwise, which the code takes for a failure.
  unfoldable pub parse_float : Bytes → Bool × Option F × Bytes
  parse_float cs =
      let (negative, cs') = sign cs in
      let (s, rest) = float_digits cs' false in
      let digits = take (if negative then 62 else 63) s in
      if length digits == 0
      then (false, none, rest)
      else if has_digit digits
      then (true, some (strtod negative digits), rest)
      else (false, some nought, rest)

-- `strncmp (s, word, strlen (word)) == 0`, with the bytes behind the word
unfoldable pub strip : Bytes → Bytes → Option Bytes
strip s [] = some s
strip [] (_ ∷ _) = none
strip (a ∷ s) (b ∷ word) = if a == b then strip s word else none

-- `parse_boolean`
unfoldable pub parse_boolean : Bytes → Option (Bool × Bytes)
parse_boolean cs = elim (strip cs (codes "true")) [
  | some rest ↦ some (true, rest)
  | none ↦ elim (strip cs (codes "false")) [ some rest ↦ some (false, rest) | none ↦ none ]
]
