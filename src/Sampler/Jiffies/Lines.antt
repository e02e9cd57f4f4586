-- ===== src/Sampler/Jiffies/Lines.antt =====
-- A line of /proc/stat is read back by src/cpu.c.
use mathlib.Core.List.{append-nil}
use native.Mathlib.Nat.{pow-suc}
use spiketrace.Prelude.{
  ℕ, zero, suc, ◌+◌, ◌*◌, ◌/◌, ◌%◌, ◌^◌, ◌≤◌, ◌<◌, ◌≡◌, refl, sym, ap, ◌∙◌, true, false, some, List,
  [], ◌∷◌, ◌++◌, arith, ◌==◌, length, length-append, All, Bytes,
}
use spiketrace.Status.{ok}
use spiketrace.Json.Values.{decimal_fuel, decimal}
use spiketrace.Json.Decimal.{value_of, decimal-value_of}
use spiketrace.Sampler.Scan.{is_space, skip_space, run, nonempty, scan_word, digits}
use spiketrace.Sampler.Scan.Numbers.{
  IsDigit, decimal_fuel-digits, decimal_nonempty, digits-append, spaced, scan_many-spaced,
}
use spiketrace.Sampler.Jiffies.{Jiffies, parse_cpu_line, parse_core_num, whole_number}

-- the ten numbers of a line
abbrev pub fields : Jiffies → List ℕ
fields j =
    j.user ∷ j.nice ∷ j.system ∷ j.idle ∷ j.iowait ∷ j.irq ∷ j.softirq ∷ j.steal ∷ j.guest
    ∷ j.guest_nice ∷ []

-- a line of the file, and the lines of the cores from `i` on
abbrev pub stat_line : Bytes → Jiffies → Bytes
stat_line label j = label ++ spaced (fields j) (10 ∷ [])

abbrev pub core_label : ℕ → Bytes
core_label i = b'c' ∷ b'p' ∷ b'u' ∷ decimal i

unfoldable pub core_lines : ℕ → List Jiffies → List Bytes
core_lines i [] = []
core_lines i (j ∷ js) = stat_line (core_label i) j ∷ core_lines (suc i) js

abbrev pub IsSmall : Jiffies → Type 0
IsSmall j = All (λ x. x < 2 ^ 64) (fields j)

abbrev pub NoSpace : ℕ → Type 0
NoSpace c = is_space c ≡ false

All-map : (P Q : ℕ → Type 0) (xs : Bytes) → ((c : ℕ) → P c → Q c) → All P xs → All Q xs
All-map P Q [] h ps = tt
All-map P Q (x ∷ xs) h (p, ps) = (h x p, All-map P Q xs h ps)

run-append :
    (n : ℕ) (w rest : Bytes)
    → All NoSpace w
    → length w ≤ n
    → run n (w ++ b' ' ∷ rest) ≡ (w, b' ' ∷ rest)
unfolding run
run-append zero [] rest p h = refl
run-append (suc n) [] rest p h = refl
run-append zero (c ∷ w) rest p h = absurd (omega arith)
run-append (suc n) (c ∷ w) rest (p, ps) h =
    rw p (ap (λ r. (c ∷ r.0, r.1)) (run-append n w rest ps (omega arith)))

-- a label is scanned whole
pub scan_word-label :
    (n c : ℕ) (w rest : Bytes)
    → All NoSpace (c ∷ w)
    → length (c ∷ w) ≤ n
    → scan_word n ((c ∷ w) ++ b' ' ∷ rest) ≡ some (c ∷ w, b' ' ∷ rest)
unfolding scan_word skip_space
scan_word-label n c w rest p h = rw (p.0) (ap nonempty (run-append n (c ∷ w) rest p h))

pub parse_cpu_line-stat_line :
    (c : ℕ) (w : Bytes) (j : Jiffies)
    → All NoSpace (c ∷ w)
    → length (c ∷ w) ≤ 256
    → IsSmall j
    → parse_cpu_line (stat_line (c ∷ w) j) ≡ (ok, j)
unfolding parse_cpu_line spaced
parse_cpu_line-stat_line c w j p h small =
    let word =
      scan_word-label 256 c w
        (decimal j.user
          ++ spaced
              (j.nice ∷ j.system ∷ j.idle ∷ j.iowait ∷ j.irq ∷ j.softirq ∷ j.steal ∷ j.guest
                ∷ j.guest_nice ∷ [])
              (10 ∷ []))
        p h in
    let nums = scan_many-spaced (fields j) (10 ∷ []) small refl in rw word (rw nums refl)

pub length-decimal_fuel-lt : (k m n : ℕ) → n < 10 ^ suc m → length (decimal_fuel k n) ≤ suc m
unfolding decimal_fuel
length-decimal_fuel-lt zero m n h = omega arith
length-decimal_fuel-lt (suc k) zero n h =
    let small : (n / 10 == 0) ≡ true = ground arith in rw small (omega arith)
length-decimal_fuel-lt (suc k) (suc m) n h =
    let power : 10 ^ suc (suc m) ≡ 10 ^ suc m * 10 = pow-suc 10 (suc m) in
    let ih = length-decimal_fuel-lt k m (n / 10) (omega (arith, h, power)) in
    ground (arith, ih, length-append (decimal_fuel k (n / 10)) ((b'0' + n % 10) ∷ []))

pub core_label-NoSpace : (i : ℕ) → All NoSpace (core_label i)
core_label-NoSpace i = (
  refl,
  (
    refl,
    (refl, All-map IsDigit NoSpace (decimal i) (λ c p. ground arith) (decimal_fuel-digits 20 i)),
  ),
)

pub parse_core_num-core_label : (i : ℕ) → i < 2 ^ 64 → parse_core_num (core_label i) ≡ some (i + 1)
unfolding parse_core_num
parse_core_num-core_label i h =
    let (c, cs, e) = decimal_nonempty i in
    let digit : All IsDigit (c ∷ cs) = rw e at (decimal_fuel-digits 20 i) in
    let first = digit.0 in
    let value : value_of (c ∷ cs) 0 ≡ i = rw e at (decimal-value_of i h) in
    let scanned = digits-append (c ∷ cs) [] 0 digit tt in
    rw e (
      rw first (
        ap whole_number
          (ap (λ s. digits s 0) (sym (append-nil (c ∷ cs))) ∙ scanned ∙ ap (λ v. (v, [])) value)))
