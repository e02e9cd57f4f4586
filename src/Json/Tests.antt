-- ===== src/Json/Tests.antt =====
-- The writer's theorems at concrete inputs.
use spiketrace.Prelude.{
  ℕ, ◌+◌, ◌<◌, ◌≡◌, refl, Bool, true, false, [], ◌++◌, arith, inl, length, codes,
}
use spiketrace.Prelude.Int.{negsuc}
use spiketrace.Status.{ok}
use spiketrace.Double.Fixed.{Fixed, fixed_double, units}
use spiketrace.Json.{
  Writer, max_size, and_then, json_grow_buffer, json_append, json_maybe_comma, escape, append_bytes,
  json_append_escaped,
}
use spiketrace.Json.Values.{
  decimal_fuel, signed, begin, finish, number, spkt_json_key, spkt_json_string, spkt_json_bool,
}
use spiketrace.Json.Writes.{IsGood, comma}
use spiketrace.Json.Document.{Value, Items, Members, print, IsShort, emit}
use spiketrace.Json.Document.Printed.{emit_prints}

abbrev fresh : Writer
fresh = record { text = []; capacity = 65536; needs_comma = false; error = false }

fresh-IsGood : IsGood fresh
fresh-IsGood = record { clean = refl; bounded = omega arith; step = inl refl }

abbrev document : Value Fixed
document = Value.object (
    Members.field (codes "a\"b")
      (Value.array
        (Items.cons (Value.int (negsuc 6)) (Items.cons (Value.double (units 2)) Items.nil)))
      (Members.field (codes "c") (Value.bool true) Members.end))

granted : ℕ → Bool
granted n = true

-- the text of the document
written : (emit granted document fresh).1.text ≡ codes "{\"a\\\"b\":[-7,2.00],\"c\":true}"
unfolding emit begin finish number spkt_json_key spkt_json_string spkt_json_bool and_then
    json_grow_buffer json_append json_maybe_comma escape append_bytes json_append_escaped
    decimal_fuel signed
written = refl

document-IsShort : IsShort document
unfolding IsShort
document-IsShort = ((tt, (omega arith, tt)), (tt, tt))

emit_prints_example :
    let (status, w') = emit granted document fresh in
    let text = comma false ++ print document in
    (status ≡ ok → IsGood w' × (w'.text ≡ [] ++ text) × (w'.needs_comma ≡ true))
    × (((n : ℕ) → granted n ≡ true) → 0 + length text < max_size → status ≡ ok)
emit_prints_example = emit_prints granted document fresh fresh-IsGood document-IsShort
