-- ===== src/Json/Emit.antt =====
-- What each operation of the writer appends.
use spiketrace.Prelude.{
  ℕ, zero, suc, ◌+◌, ◌/◌, ◌%◌, ◌≤◌, ◌≡◌, Bool, true, false, some, [], ◌∷◌, ◌++◌, arith, leb,
  if◌then◌else◌, length, length-append, Bytes, codes,
}
use spiketrace.Prelude.Int.{ℤ, pos, negsuc}
use spiketrace.Json.{Writer, Result, and_then, json_append, json_maybe_comma, json_append_escaped}
use spiketrace.Json.Values.{
  decimal_fuel, decimal, signed, set_comma, begin, finish, number, spkt_json_key, spkt_json_string,
  spkt_json_bool,
}
use spiketrace.Json.Writes.{
  IsGood, Writes, json_append-Writes, and_then-Writes, json_maybe_comma-Writes,
  json_append_escaped-Writes, comma, quoted,
}

length-decimal_fuel : (k n : ℕ) → length (decimal_fuel k n) ≤ k
unfolding decimal_fuel
length-decimal_fuel zero n = omega arith
length-decimal_fuel (suc k) n = ground (
  arith,
  length-decimal_fuel k (n / 10),
  length-append (decimal_fuel k (n / 10)) ((b'0' + n % 10) ∷ []),
)

pub length-decimal : (n : ℕ) → length (decimal n) ≤ 20
length-decimal n = length-decimal_fuel 20 n

pub length-signed : (z : ℤ) → length (signed z) ≤ 21
unfolding signed
length-signed (pos n) = omega (arith, length-decimal n)
length-signed (negsuc n) = omega (arith, length-decimal (suc n))

module _ (granted : ℕ → Bool) where
  -- the comma flag that a writer starts with makes no difference to what it appends then
  from_set_comma :
      (b : Bool) (w : Writer) (s : Bytes) (c : Bool) (out : Result)
      → Writes granted (set_comma b w) s c out
      → Writes granted w s c out
  from_set_comma b w s c out h = record {
    good = h.good;
    text = h.text;
    flag = h.flag;
    fits = h.fits;
  }

  set_comma-IsGood : (b : Bool) (w : Writer) → IsGood w → IsGood (set_comma b w)
  set_comma-IsGood b w g = record { clean = g.clean; bounded = g.bounded; step = g.step }

  short_after :
      (b : Bool) (s : Bytes) (w : Writer)
      → IsGood w
      → length s ≤ 31
      → Writes granted w s b (json_append granted s (set_comma b w))
  short_after b s w g small =
      from_set_comma b w s b _
        (json_append-Writes granted s (set_comma b w) (set_comma-IsGood b w g) small)

  -- a comma where one is due, and then the rest
  after_comma :
      (s : Bytes) (c : Bool) (w : Writer) (next : Writer → Result)
      → IsGood w
      → ((w' : Writer) → IsGood w' → Writes granted w' s c (next w'))
      → Writes granted w (comma w.needs_comma ++ s) c (and_then (json_maybe_comma granted w) next)
  after_comma s c w next g rest =
      and_then-Writes granted w (comma w.needs_comma) s w.needs_comma c (json_maybe_comma granted w)
        next (json_maybe_comma-Writes granted w g) (λ w' g' _. rest w' g')

  pub begin-Writes :
      (bracket : ℕ) (w : Writer)
      → IsGood w
      → Writes granted w (comma w.needs_comma ++ bracket ∷ []) false (begin granted bracket w)
  unfolding begin
  begin-Writes bracket w g =
      after_comma (bracket ∷ []) false w _ g
        (λ w' g'. short_after false (bracket ∷ []) w' g' (omega arith))

  pub finish-Writes :
      (bracket : ℕ) (w : Writer)
      → IsGood w
      → Writes granted w (bracket ∷ []) true (finish granted bracket w)
  unfolding finish
  finish-Writes bracket w g = short_after true (bracket ∷ []) w g (omega arith)

  pub key-Writes :
      (key : Bytes) (w : Writer)
      → IsGood w
      → Writes granted w
          (comma w.needs_comma ++ (quoted key ++ b':' ∷ []))
          false
          (spkt_json_key granted key w)
  unfolding spkt_json_key
  key-Writes key w g = after_comma (quoted key ++ b':' ∷ []) false w _ g λ w' g'.
      and_then-Writes granted w' (quoted key) (b':' ∷ []) w'.needs_comma false
        (json_append_escaped granted key w') _ (json_append_escaped-Writes granted key w' g')
        (λ w'' g'' _. short_after false (b':' ∷ []) w'' g'' (omega arith))

  pub string-Writes :
      (str : Bytes) (w : Writer)
      → IsGood w
      → Writes granted w
          (comma w.needs_comma ++ quoted str)
          true
          (spkt_json_string granted (some str) w)
  unfolding spkt_json_string
  string-Writes str w g = after_comma (quoted str) true w _ g λ w' g'.
      from_set_comma true w' (quoted str) true _
        (json_append_escaped-Writes granted str (set_comma true w') (set_comma-IsGood true w' g'))

  pub number-Writes :
      (buf : Bytes) (w : Writer)
      → IsGood w
      → length buf ≤ 31
      → Writes granted w (comma w.needs_comma ++ buf) true (number granted buf w)
  unfolding number
  number-Writes buf w g small =
      let short : leb 32 (length buf) ≡ false = ground arith in
      rw short (after_comma buf true w _ g (λ w' g'. short_after true buf w' g' small))

  pub bool-Writes :
      (b : Bool) (w : Writer)
      → IsGood w
      → Writes granted w
          (comma w.needs_comma ++ (if b then codes "true" else codes "false"))
          true
          (spkt_json_bool granted b w)
  unfolding spkt_json_bool
  bool-Writes true w g =
      after_comma (codes "true") true w _ g
        (λ w' g'. short_after true (codes "true") w' g' (omega arith))
  bool-Writes false w g =
      after_comma (codes "false") true w _ g
        (λ w' g'. short_after true (codes "false") w' g' (omega arith))
