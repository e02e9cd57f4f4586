-- ===== src/Json/Document/Printed.antt =====
-- The operations write the document that they stand for.
use spiketrace.Prelude.{
  ℕ, ◌+◌, ◌<◌, ◌≡◌, Bool, true, false, [], ◌∷◌, ◌++◌, arith, length, Bytes, sym, subst,
}
use mathlib.Core.List.{append_assoc, append-nil}
use spiketrace.Status.{ok}
use spiketrace.Double.{Double}
use spiketrace.Json.{Writer, Result, and_then, max_size}
use spiketrace.Json.Values.{decimal, signed, begin, finish, spkt_json_key}
use spiketrace.Json.Writes.{IsGood, Writes, done-Writes, and_then-Writes, comma, quoted}
use spiketrace.Json.Emit.{
  length-decimal, length-signed, begin-Writes, finish-Writes, key-Writes, string-Writes,
  number-Writes, bool-Writes,
}
use spiketrace.Json.Document.{
  Value, Items, Members, print, print_items, print_members, IsShort, AreShort, HaveShort, emit,
  emit_items, emit_members,
}

module _ (granted : ℕ → Bool) where
  regroup :
      (w : Writer) (a s t : Bytes) (c : Bool) (out : Result)
      → Writes granted w ((a ++ s) ++ t) c out
      → Writes granted w (a ++ (s ++ t)) c out
  regroup w a s t c out h = subst (λ x. Writes granted w x c out) (append_assoc a s t) h

  due :
      (w : Writer) (later : Bool) (s : Bytes) (c : Bool) (out : Result)
      → w.needs_comma ≡ later
      → Writes granted w (comma w.needs_comma ++ s) c out
      → Writes granted w (comma later ++ s) c out
  due w later s c out e h = subst (λ b. Writes granted w (comma b ++ s) c out) e h

  nothing-Writes :
      (w : Writer) (c : Bool) → IsGood w → w.needs_comma ≡ c → Writes granted w [] c (ok, w)
  nothing-Writes w c g e = done-Writes granted w w [] c g (sym (append-nil w.text)) e

  -- brackets around what is written in between
  bracketed :
      (left right : ℕ) (s : Bytes) (c : Bool) (w : Writer) (inner : Writer → Result)
      → IsGood w
      → ((w' : Writer) → IsGood w' → w'.needs_comma ≡ false → Writes granted w' s c (inner w'))
      → Writes granted w
          (comma w.needs_comma ++ (left ∷ (s ++ right ∷ [])))
          true
          (and_then (begin granted left w) λ w₁. and_then (inner w₁) (finish granted right))
  bracketed left right s c w inner g h =
      regroup w (comma w.needs_comma) (left ∷ []) (s ++ right ∷ []) true _ (
        and_then-Writes granted w (comma w.needs_comma ++ left ∷ []) (s ++ right ∷ []) false true
          (begin granted left w) _ (begin-Writes granted left w g)
          (λ w₁ g₁ e₁.
            and_then-Writes granted w₁ s (right ∷ []) c true (inner w₁) _ (h w₁ g₁ e₁)
              (λ w₂ g₂ _. finish-Writes granted right w₂ g₂)))

module _ {F : Type 0} where
  abbrev flag_items : Bool → Items F → Bool
  flag_items later Items.nil = later
  flag_items later (Items.cons v items) = flag_items true items

  abbrev flag_members : Bool → Members F → Bool
  flag_members later Members.end = later
  flag_members later (Members.field key v members) = flag_members true members

module _ {F : Type 0} ⦃d : Double F⦄ (granted : ℕ → Bool) where
  mutual
    unfolding print print_items print_members emit emit_items emit_members IsShort AreShort
        HaveShort

    value-Writes :
        (v : Value F) (w : Writer)
        → IsGood w
        → IsShort v
        → Writes granted w (comma w.needs_comma ++ print v) true (emit granted v w)
    value-Writes (Value.text str) w g h = string-Writes granted str w g
    value-Writes (Value.int z) w g h =
        number-Writes granted (signed z) w g (omega (arith, length-signed z))
    value-Writes (Value.uint n) w g h =
        number-Writes granted (decimal n) w g (omega (arith, length-decimal n))
    value-Writes (Value.double x) w g h = number-Writes granted (d.print x) w g h
    value-Writes (Value.bool b) w g h = bool-Writes granted b w g
    value-Writes (Value.array items) w g h =
        bracketed granted b'[' b']' (print_items false items) (flag_items false items) w
          (emit_items granted items) g (λ w' g' e'. items-Writes items false w' g' e' h)
    value-Writes (Value.object members) w g h =
        bracketed granted b'{' b'}' (print_members false members) (flag_members false members) w
          (emit_members granted members) g (λ w' g' e'. members-Writes members false w' g' e' h)

    items-Writes :
        (items : Items F) (later : Bool) (w : Writer)
        → IsGood w
        → w.needs_comma ≡ later
        → AreShort items
        → Writes granted w
            (print_items later items)
            (flag_items later items)
            (emit_items granted items w)
    items-Writes Items.nil later w g e h = nothing-Writes granted w later g e
    items-Writes (Items.cons v items) later w g e (short, h) =
        regroup granted w (comma later) (print v) (print_items true items) (flag_items true items) _
          (and_then-Writes granted w (comma later ++ print v) (print_items true items) true
            (flag_items true items) (emit granted v w) _
            (due granted w later (print v) true _ e (value-Writes v w g short))
            (λ w' g' e'. items-Writes items true w' g' e' h))

    members-Writes :
        (members : Members F) (later : Bool) (w : Writer)
        → IsGood w
        → w.needs_comma ≡ later
        → HaveShort members
        → Writes granted w
            (print_members later members)
            (flag_members later members)
            (emit_members granted members w)
    members-Writes Members.end later w g e h = nothing-Writes granted w later g e
    members-Writes (Members.field key v members) later w g e (short, h) =
        and_then-Writes granted w (comma later ++ (quoted key ++ b':' ∷ []))
          (print v ++ print_members true members) false (flag_members true members)
          (spkt_json_key granted key w) _
          (due granted w later (quoted key ++ b':' ∷ []) false _ e (key-Writes granted key w g))
          (λ w₁ g₁ e₁.
            and_then-Writes granted w₁ (print v) (print_members true members) true
              (flag_members true members) (emit granted v w₁) _
              (due granted w₁ false (print v) true _ e₁ (value-Writes v w₁ g₁ short))
              (λ w₂ g₂ e₂. members-Writes members true w₂ g₂ e₂ h))

  -- A document whose doubles print in less than 32 bytes, written part by part to a writer without
  -- error whose capacity is one that doubling from the default gives. If every operation succeeds,
  -- the writer has the printed document behind its text, with a comma between them if one was due,
  -- still without error and with the text and its NUL inside the buffer. They do succeed if
  -- `realloc` does and the text stays below one MiB.
  pub emit_prints :
      (v : Value F) (w : Writer)
      → IsGood w
      → IsShort v
      → let (status, w') = emit granted v w in
        let written = comma w.needs_comma ++ print v in
        (status ≡ ok → IsGood w' × (w'.text ≡ w.text ++ written) × (w'.needs_comma ≡ true))
        × (((n : ℕ) → granted n ≡ true) → length w.text + length written < max_size → status ≡ ok)
  emit_prints v w g h =
      let written = value-Writes v w g h in
      (λ e. (written.good e, written.text e, written.flag e), written.fits)
