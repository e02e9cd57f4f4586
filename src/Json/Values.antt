-- ===== src/Json/Values.antt =====
-- The public operations of src/json_writer.c. A null writer is `none`.
use spiketrace.Prelude.{
  ℕ, zero, suc, ◌+◌, ◌/◌, ◌%◌, Bool, true, false, Option, none, some, [], ◌∷◌, ◌++◌, leb, ◌==◌,
  if◌then◌else◌, length, Bytes, codes,
}
use spiketrace.Prelude.Int.{ℤ, pos, negsuc}
use spiketrace.Status.{Status, ok, err_json_overflow, err_json_alloc, err_null_pointer}
use spiketrace.Double.{Double}
use spiketrace.Json.{
  default_size, Writer, Result, and_then, json_append, json_append_char, json_maybe_comma,
  json_append_escaped,
}

-- `%u`: 20 digits are enough for 64 bits
unfoldable pub decimal_fuel : ℕ → ℕ → Bytes
decimal_fuel zero n = []
decimal_fuel (suc k) n =
    let front = decimal_fuel k (n / 10) in
    let digit = b'0' + n % 10 in if n / 10 == 0 then digit ∷ [] else front ++ digit ∷ []

abbrev pub decimal : ℕ → Bytes
decimal n = decimal_fuel 20 n

-- `%d`
unfoldable pub signed : ℤ → Bytes
signed (pos n) = decimal n
signed (negsuc n) = b'-' ∷ decimal (suc n)

-- an empty writer; `made` is the outcome of `malloc`
unfoldable pub spkt_json_init : Bool → ℕ → Status × Option Writer
spkt_json_init made capacity =
    if made
    then (
      ok,
      some (record {
        text = [];
        capacity = if capacity == 0 then default_size else capacity;
        needs_comma = false;
        error = false;
      }),
    )
    else (err_json_alloc, none)

abbrev pub spkt_json_cleanup : Writer → Writer
spkt_json_cleanup w = record { text = []; capacity = 0; needs_comma = false; error = false }

abbrev pub set_comma : Bool → Writer → Writer
set_comma c w = record w { needs_comma = c }

module _ (granted : ℕ → Bool) where
  -- the opening bracket, with a comma in front where one is due
  unfoldable pub begin : ℕ → Writer → Result
  begin bracket w =
      and_then (json_maybe_comma granted w)
        λ w₁. json_append_char granted bracket (set_comma false w₁)

  unfoldable pub finish : ℕ → Writer → Result
  finish bracket w = json_append_char granted bracket (set_comma true w)

  abbrev pub spkt_json_begin_object : Writer → Result
  spkt_json_begin_object = begin b'{'

  abbrev pub spkt_json_end_object : Writer → Result
  spkt_json_end_object = finish b'}'

  abbrev pub spkt_json_begin_array : Writer → Result
  spkt_json_begin_array = begin b'['

  abbrev pub spkt_json_end_array : Writer → Result
  spkt_json_end_array = finish b']'

  unfoldable pub spkt_json_key : Bytes → Writer → Result
  spkt_json_key key w = and_then (json_maybe_comma granted w) λ w₁.
      and_then (json_append_escaped granted key w₁)
        λ w₂. json_append_char granted b':' (set_comma false w₂)

  -- a null value is the empty string
  unfoldable pub spkt_json_string : Option Bytes → Writer → Result
  spkt_json_string value w = and_then (json_maybe_comma granted w) λ w₁.
      json_append_escaped granted (elim value [ none ↦ [] | some str ↦ str ]) (set_comma true w₁)

  -- a printed number, if it fits the buffer of 32 bytes
  unfoldable pub number : Bytes → Writer → Result
  number buf w = and_then (json_maybe_comma granted w) λ w₁.
      if leb 32 (length buf)
      then (err_json_overflow, w₁)
      else json_append granted buf (set_comma true w₁)

  abbrev pub spkt_json_int : ℤ → Writer → Result
  spkt_json_int value = number (signed value)

  abbrev pub spkt_json_uint : ℕ → Writer → Result
  spkt_json_uint value = number (decimal value)

  abbrev pub spkt_json_double : {F : Type 0} ⦃d : Double F⦄ → F → Writer → Result
  spkt_json_double ⦃d⦄ value = number (d.print value)

  unfoldable pub spkt_json_bool : Bool → Writer → Result
  spkt_json_bool value w =
      and_then (json_maybe_comma granted w) λ w₁.
        json_append granted (if value then codes "true" else codes "false") (set_comma true w₁)

-- the text, its length and the error of a writer, where a null writer is `none`
unfoldable pub spkt_json_get_buffer : Option Writer → Bytes
spkt_json_get_buffer none = []
spkt_json_get_buffer (some w) = w.text

unfoldable pub spkt_json_get_length : Option Writer → ℕ
spkt_json_get_length none = 0
spkt_json_get_length (some w) = length w.text

unfoldable pub spkt_json_has_error : Option Writer → Bool
spkt_json_has_error none = true
spkt_json_has_error (some w) = w.error

-- an operation on a writer, which refuses a null one first
unfoldable pub on_writer : (Writer → Result) → Option Writer → Status × Option Writer
on_writer f none = (err_null_pointer, none)
on_writer f (some w) = let (s, w') = f w in (s, some w')
