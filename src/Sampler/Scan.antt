-- ===== src/Sampler/Scan.antt =====
-- The conversions of `sscanf` that the samplers use, on the rest of the text.
pub mod Numbers
use spiketrace.Prelude.{
  ℕ, zero, suc, ◌+◌, ◌-◌, ◌*◌, ◌%◌, ◌^◌, Bool, true, false, ◌&&◌, ◌||◌, Option, none, some, List,
  [], ◌∷◌, ltb, leb, ◌==◌, if◌then◌else◌, Bytes,
}
use spiketrace.Prelude.Int.{ℤ, pos, ◌-ℤ◌}

abbrev pub is_space : ℕ → Bool
is_space c = (c == b' ') || (leb 9 c && leb c 13)

abbrev pub is_digit : ℕ → Bool
is_digit c = leb b'0' c && leb c b'9'

unfoldable pub skip_space : Bytes → Bytes
skip_space [] = []
skip_space (c ∷ cs) = if is_space c then skip_space cs else c ∷ cs

-- a run of at most `n` bytes that are no spaces, and the bytes behind it
unfoldable pub run : ℕ → Bytes → Bytes × Bytes
run zero cs = ([], cs)
run (suc n) [] = ([], [])
run (suc n) (c ∷ cs) =
    let (word, rest) = run n cs in if is_space c then ([], c ∷ cs) else (c ∷ word, rest)

abbrev pub nonempty : Bytes × Bytes → Option (Bytes × Bytes)
nonempty ([], rest) = none
nonempty (c ∷ word, rest) = some (c ∷ word, rest)

-- `%<n>s`
unfoldable pub scan_word : ℕ → Bytes → Option (Bytes × Bytes)
scan_word n s = nonempty (run n (skip_space s))

-- the number that the leading digits stand for, behind the digits of `n`
unfoldable pub digits : Bytes → ℕ → ℕ × Bytes
digits [] n = (n, [])
digits (c ∷ cs) n =
    let rest = digits cs (n * 10 + (c - b'0')) in if is_digit c then rest else (n, c ∷ cs)

-- the digits, of which there is at least one
abbrev pub number : Bytes → Option (ℕ × Bytes)
number [] = none
number (c ∷ cs) = if is_digit c then some (digits (c ∷ cs) 0) else none

abbrev pub largest : ℕ
largest = 18446744073709551615

-- a number beyond 64 bits becomes the largest one; a minus wraps around
abbrev pub unsigned : Bool → Option (ℕ × Bytes) → Option (ℕ × Bytes)
unsigned minus none = none
unsigned minus (some (n, rest)) =
    some (if ltb largest n then largest else if minus then (2 ^ 64 - n) % 2 ^ 64 else n, rest)

-- `%llu`, `%lu`
abbrev pub sign_then : Bytes → Option (ℕ × Bytes)
sign_then [] = none
sign_then (c ∷ cs) =
    if c == b'-'
    then unsigned true (number cs)
    else if c == b'+'
    then unsigned false (number cs)
    else unsigned false (number (c ∷ cs))

unfoldable pub scan_unsigned : Bytes → Option (ℕ × Bytes)
scan_unsigned s = sign_then (skip_space s)

-- `%d`, on numbers that fit an `int`
abbrev pub signed_by : Bool → Option (ℕ × Bytes) → Option (ℤ × Bytes)
signed_by minus none = none
signed_by minus (some (n, rest)) = some (if minus then pos 0 -ℤ pos n else pos n, rest)

abbrev pub int_then : Bytes → Option (ℤ × Bytes)
int_then [] = none
int_then (c ∷ cs) =
    if c == b'-'
    then signed_by true (number cs)
    else if c == b'+'
    then signed_by false (number cs)
    else signed_by false (number (c ∷ cs))

unfoldable pub scan_int : Bytes → Option (ℤ × Bytes)
scan_int s = int_then (skip_space s)

-- up to `n` conversions `%llu`, until one fails
abbrev pub and_more : (Bytes → List ℕ) → Option (ℕ × Bytes) → List ℕ
and_more more none = []
and_more more (some (x, rest)) = x ∷ more rest

unfoldable pub scan_many : ℕ → Bytes → List ℕ
scan_many zero s = []
scan_many (suc n) s = and_more (scan_many n) (scan_unsigned s)
