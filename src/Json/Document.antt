-- ===== src/Json/Document.antt =====
-- A document written by the operations in the order of its parts, as the daemon's serializers do.
pub mod Printed
use spiketrace.Prelude.{
  ℕ, ◌+◌, ◌≤◌, ◌<◌, ◌≡◌, Bool, true, false, Option, some, [], ◌∷◌, ◌++◌, arith, length, Bytes,
  codes, if◌then◌else◌, refl,
}
use mathlib.Core.List.{append_assoc, append-nil}
use spiketrace.Prelude.Int.{ℤ}
use spiketrace.Status.{ok}
use spiketrace.Double.{Double}
use spiketrace.Json.{Writer, Result, and_then, max_size}
use spiketrace.Json.Values.{
  decimal, signed, begin, finish, number, spkt_json_key, spkt_json_string, spkt_json_bool,
  spkt_json_int, spkt_json_uint, spkt_json_double, spkt_json_begin_array, spkt_json_end_array,
  spkt_json_begin_object, spkt_json_end_object,
}
use spiketrace.Json.Writes.{comma, quoted}

mutual
  pub data Value (F : Type 0) : Type 0 where
    text : Bytes → Value F
    int : ℤ → Value F
    uint : ℕ → Value F
    double : F → Value F
    bool : Bool → Value F
    array : Items F → Value F
    object : Members F → Value F

  pub data Items (F : Type 0) : Type 0 where
    nil : Items F
    cons : Value F → Items F → Items F

  pub data Members (F : Type 0) : Type 0 where
    end : Members F
    field : Bytes → Value F → Members F → Members F

module _ {F : Type 0} ⦃d : Double F⦄ where
  unfoldable mutual
    -- the grammar of JSON; `print_items true` is what follows a first item
    pub print : Value F → Bytes
    print (Value.text str) = quoted str
    print (Value.int z) = signed z
    print (Value.uint n) = decimal n
    print (Value.double x) = d.print x
    print (Value.bool b) = if b then codes "true" else codes "false"
    print (Value.array items) = b'[' ∷ print_items false items ++ b']' ∷ []
    print (Value.object members) = b'{' ∷ print_members false members ++ b'}' ∷ []

    pub print_items : Bool → Items F → Bytes
    print_items later Items.nil = []
    print_items later (Items.cons v items) = comma later ++ (print v ++ print_items true items)

    pub print_members : Bool → Members F → Bytes
    print_members later Members.end = []
    print_members later (Members.field key v members) =
        comma later ++ (quoted key ++ b':' ∷ []) ++ (print v ++ print_members true members)

  -- every double prints in less than the 32 bytes of the buffer
  unfoldable mutual
    pub IsShort : Value F → Type 0
    IsShort (Value.text _) = Unit
    IsShort (Value.int _) = Unit
    IsShort (Value.uint _) = Unit
    IsShort (Value.double x) = length (d.print x) ≤ 31
    IsShort (Value.bool _) = Unit
    IsShort (Value.array items) = AreShort items
    IsShort (Value.object members) = HaveShort members

    pub AreShort : Items F → Type 0
    AreShort Items.nil = Unit
    AreShort (Items.cons v items) = IsShort v × AreShort items

    pub HaveShort : Members F → Type 0
    HaveShort Members.end = Unit
    HaveShort (Members.field key v members) = IsShort v × HaveShort members

module _ {F : Type 0} ⦃d : Double F⦄ (granted : ℕ → Bool) where
  unfoldable mutual
    pub emit : Value F → Writer → Result
    emit (Value.text str) w = spkt_json_string granted (some str) w
    emit (Value.int z) w = spkt_json_int granted z w
    emit (Value.uint n) w = spkt_json_uint granted n w
    emit (Value.double x) w = spkt_json_double granted x w
    emit (Value.bool b) w = spkt_json_bool granted b w
    emit (Value.array items) w =
        and_then (spkt_json_begin_array granted w)
          λ w₁. and_then (emit_items items w₁) (spkt_json_end_array granted)
    emit (Value.object members) w =
        and_then (spkt_json_begin_object granted w)
          λ w₁. and_then (emit_members members w₁) (spkt_json_end_object granted)

    pub emit_items : Items F → Writer → Result
    emit_items Items.nil w = (ok, w)
    emit_items (Items.cons v items) w = and_then (emit v w) (emit_items items)

    pub emit_members : Members F → Writer → Result
    emit_members Members.end w = (ok, w)
    emit_members (Members.field key v members) w =
        and_then (spkt_json_key granted key w) λ w₁. and_then (emit v w₁) (emit_members members)
