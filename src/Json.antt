-- ===== src/Json.antt =====
-- src/json_writer.c: a JSON writer on a growing buffer. The buffer is its text; `length` is the
-- length of that, and the NUL behind it takes one more byte of the capacity. `realloc` is asked for
-- a new size each time, so its answers are a function of the size, `granted`.
pub mod Values
pub mod Emit
pub mod Writes
pub mod Decimal
pub mod Document
mod Tests
use spiketrace.Prelude.{
  ℕ, zero, suc, ◌+◌, ◌-◌, ◌*◌, ◌/◌, ◌%◌, Bool, true, false, Option, none, some, List, [], ◌∷◌, ◌++◌,
  ltb, leb, ◌==◌, if◌then◌else◌, length, Bytes, codes,
}
use spiketrace.Status.{Status, ok, is_ok, err_json_overflow, err_json_alloc, err_null_pointer}

-- `SPKT_JSON_MAX_BUFFER_SIZE` and `SPKT_JSON_DEFAULT_BUFFER_SIZE`
abbrev pub max_size : ℕ
max_size = 1048576

abbrev pub default_size : ℕ
default_size = 65536

-- `spkt_json_writer_t`
pub record Writer : Type 0 where
  pub text : Bytes
  pub capacity : ℕ
  pub needs_comma : Bool
  pub error : Bool

-- a status, and the writer after the call
abbrev pub Result : Type 0
Result = Status × Writer

-- `if (status != SPKT_OK) return status;`
unfoldable pub and_then : Result → (Writer → Result) → Result
and_then out next = if is_ok out.0 then next out.1 else out

abbrev pub new_capacity : Writer → ℕ → ℕ
new_capacity w needed =
    let doubled = w.capacity * 2 in
    let least = length w.text + needed + 1 in
    let wanted = if ltb doubled least then least else doubled in
    if ltb max_size wanted then max_size else wanted

module _ (granted : ℕ → Bool) where
  -- `json_grow_buffer`; `none` for failure, which leaves the writer
  unfoldable pub json_grow_buffer : Writer → ℕ → Option Writer
  json_grow_buffer w needed =
      if leb max_size w.capacity
      then none
      else if granted (new_capacity w needed)
      then some (record w { capacity = new_capacity w needed })
      else none

  -- `json_append`, where the length is that of the string
  unfoldable pub json_append : Bytes → Writer → Result
  json_append str w =
      if w.error
      then (err_json_overflow, w)
      else if leb w.capacity (length w.text + length str)
      then elim (json_grow_buffer w (length str)) [
        | none ↦ (err_json_overflow, record w { error = true })
        | some w' ↦ (ok, record w' { text = w'.text ++ str })
      ]
      else (ok, record w { text = w.text ++ str })

  abbrev pub json_append_char : ℕ → Writer → Result
  json_append_char c w = json_append (c ∷ []) w

  unfoldable pub json_maybe_comma : Writer → Result
  json_maybe_comma w = if w.needs_comma then json_append_char b',' w else (ok, w)

-- one hexadecimal digit
abbrev pub hex : ℕ → ℕ
hex n = if ltb n 10 then b'0' + n else b'a' + n - 10

-- what a byte of a string becomes
unfoldable pub escape : ℕ → Bytes
escape c =
    if c == b'"'
    then b'\\' ∷ b'"' ∷ []
    else if c == b'\\'
    then b'\\' ∷ b'\\' ∷ []
    else if c == 8
    then b'\\' ∷ b'b' ∷ []
    else if c == 12
    then b'\\' ∷ b'f' ∷ []
    else if c == 10
    then b'\\' ∷ b'n' ∷ []
    else if c == 13
    then b'\\' ∷ b'r' ∷ []
    else if c == 9
    then b'\\' ∷ b't' ∷ []
    else if ltb c 32
    then b'\\' ∷ b'u' ∷ b'0' ∷ b'0' ∷ hex (c / 16) ∷ hex (c % 16) ∷ []
    else c ∷ []

module _ (granted : ℕ → Bool) where
  -- the loop of `json_append_escaped`
  unfoldable pub append_bytes : Bytes → Writer → Result
  append_bytes [] w = (ok, w)
  append_bytes (c ∷ cs) w = and_then (json_append granted (escape c) w) (append_bytes cs)

  unfoldable pub json_append_escaped : Bytes → Writer → Result
  json_append_escaped str w =
      and_then (json_append_char granted b'"' w)
        λ w₁. and_then (append_bytes str w₁) (json_append_char granted b'"')
