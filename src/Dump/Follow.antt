-- ===== src/Dump/Follow.antt =====
-- A document written call by call, with the calls that come behind it, is the document written as a
-- whole and then those calls.
use mathlib.Core.Path.{fun_ext}
use spiketrace.Prelude.{ℕ, some, ◌≡◌, refl, ap, sym, ◌∙◌, Bool, List, [], ◌∷◌, Bool-cases, inl, inr}
use spiketrace.Status.{ok, is_ok}
use spiketrace.Double.{Double}
use spiketrace.Json.{Writer, Result, and_then}
use spiketrace.Json.Values.{
  spkt_json_begin_object, spkt_json_end_object, spkt_json_begin_array, spkt_json_end_array,
  spkt_json_key, spkt_json_string, spkt_json_int, spkt_json_uint, spkt_json_double, spkt_json_bool,
}
use spiketrace.Json.Document.{Value, Members, emit, emit_items, emit_members}
use spiketrace.Dump.{◌>>◌, each}
use spiketrace.Dump.Schema.{items_of}

pub done : (next : Writer → Result) (w : Writer) → and_then (ok, w) next ≡ next w
unfolding and_then
done next w = refl

pub and_then_assoc :
    (out : Result) (f g : Writer → Result)
    → and_then (and_then out f) g ≡ and_then out (λ w. and_then (f w) g)
unfolding and_then
and_then_assoc out f g = elim (Bool-cases (is_ok out.0)) [
  | inl fine ↦ rw fine refl
  | inr bad ↦ rw bad (rw bad refl)
]

and_then_cong :
    (out : Result) (f g : Writer → Result)
    → ((w : Writer) → f w ≡ g w)
    → and_then out f ≡ and_then out g
and_then_cong out f g h = ap (and_then out) (fun_ext h)

module _ {F : Type 0} ⦃d : Double F⦄ (granted : ℕ → Bool) where
  unfoldable mutual
    pub follow : Value F → (Writer → Result) → Writer → Result
    follow (Value.text str) next w = and_then (spkt_json_string granted (some str) w) next
    follow (Value.int z) next w = and_then (spkt_json_int granted z w) next
    follow (Value.uint n) next w = and_then (spkt_json_uint granted n w) next
    follow (Value.double x) next w = and_then (spkt_json_double granted x w) next
    follow (Value.bool b) next w = and_then (spkt_json_bool granted b w) next
    follow (Value.array items) next w =
        and_then (spkt_json_begin_array granted w)
          (emit_items granted items >> spkt_json_end_array granted >> next)
    follow (Value.object members) next w =
        and_then (spkt_json_begin_object granted w)
          (follow_members members (spkt_json_end_object granted >> next))

    pub follow_members : Members F → (Writer → Result) → Writer → Result
    follow_members Members.end next w = next w
    follow_members (Members.field key v members) next w =
        and_then (spkt_json_key granted key w) (follow v (follow_members members next))

  mutual
    unfolding follow follow_members emit emit_items emit_members

    pub follow-emit :
        (v : Value F) (next : Writer → Result) (w : Writer)
        → follow v next w ≡ and_then (emit granted v w) next
    follow-emit (Value.text str) next w = refl
    follow-emit (Value.int z) next w = refl
    follow-emit (Value.uint n) next w = refl
    follow-emit (Value.double x) next w = refl
    follow-emit (Value.bool b) next w = refl
    follow-emit (Value.array items) next w =
        and_then_cong _ _ _ (λ w₁. sym (and_then_assoc (emit_items granted items w₁) _ next))
        ∙ sym (and_then_assoc (spkt_json_begin_array granted w) _ next)
    follow-emit (Value.object members) next w =
        and_then_cong _ _ _ (λ w₁.
          follow_members-emit members (spkt_json_end_object granted >> next) w₁
          ∙ sym (and_then_assoc (emit_members granted members w₁) _ next))
        ∙ sym (and_then_assoc (spkt_json_begin_object granted w) _ next)

    pub follow_members-emit :
        (members : Members F) (next : Writer → Result) (w : Writer)
        → follow_members members next w ≡ and_then (emit_members granted members w) next
    follow_members-emit Members.end next w = sym (done next w)
    follow_members-emit (Members.field key v members) next w =
        and_then_cong _ _ _ (λ w₁.
          follow-emit v (follow_members members next) w₁
          ∙ and_then_cong _ _ _ (follow_members-emit members next)
          ∙ sym (and_then_assoc (emit granted v w₁) _ next))
        ∙ sym (and_then_assoc (spkt_json_key granted key w) _ next)

  -- an object without calls behind it
  pub object-emit :
      (members : Members F) (w : Writer)
      → and_then
          (spkt_json_begin_object granted w)
          (follow_members members (spkt_json_end_object granted))
        ≡ emit granted (Value.object members) w
  unfolding emit
  object-emit members w =
      and_then_cong _ _ _ (follow_members-emit members (spkt_json_end_object granted))

  pub each-emit :
      {A : Type 0} (write : A → Writer → Result) (f : A → Value F)
      → ((x : A) (w : Writer) → write x w ≡ emit granted (f x) w)
      → (xs : List A) (w : Writer) → each write xs w ≡ emit_items granted (items_of f xs) w
  unfolding each emit_items items_of
  each-emit write f h [] w = refl
  each-emit write f h (x ∷ xs) w =
      ap (λ out. and_then out (each write xs)) (h x w)
      ∙ and_then_cong _ _ _ (each-emit write f h xs)
