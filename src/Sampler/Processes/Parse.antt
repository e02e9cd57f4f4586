-- ===== src/Sampler/Processes/Parse.antt =====
-- src/proc.c: what is read of /proc/<pid>. A file that cannot be opened or is empty is `none`.
use spiketrace.Prelude.{
  ◌>>=◌, ℕ, zero, suc, ◌+◌, ◌-◌, ◌*◌, ◌/◌, ◌%◌, ◌^◌, Option, none, some, List, [], ◌∷◌, ◌==◌,
  if◌then◌else◌, take, drop, Bytes, codes,
}
use spiketrace.Prelude.Int.{ℤ, pos, leb_ℤ, pos_part}
use spiketrace.Config.Path.{starts_with}
use spiketrace.Sampler.Scan.{scan_unsigned, scan_int}

-- `get_page_size`, on the answer of `sysconf`
unfoldable pub get_page_size : ℤ → ℕ
get_page_size page_size_bytes =
    if leb_ℤ page_size_bytes (pos 0) then 4096 else pos_part page_size_bytes

-- what `parse_proc_stat` sets on success
pub record Stat : Type 0 where
  pub state : ℕ
  pub ppid : ℤ
  pub pgid : ℤ
  pub ticks : ℕ
  pub comm : Bytes

-- the text behind the first such byte
unfoldable pub behind_first : ℕ → Bytes → Option Bytes
behind_first c [] = none
behind_first c (b ∷ bs) = if b == c then some bs else behind_first c bs

-- the texts before and behind the last such byte
abbrev pub or_here : ℕ → ℕ → Bytes → Option (Bytes × Bytes) → Option (Bytes × Bytes)
or_here c b bs (some (before, behind)) = some (b ∷ before, behind)
or_here c b bs none = if b == c then some ([], bs) else none

unfoldable pub around_last : ℕ → Bytes → Option (Bytes × Bytes)
around_last c [] = none
around_last c (b ∷ bs) = or_here c b bs (around_last c bs)

-- `n` conversions whose values are dropped, `%*d` and `%*u`
unfoldable pub skip_ints : ℕ → Bytes → Option Bytes
skip_ints zero s = some s
skip_ints (suc n) s = do (x, rest) ← scan_int s; skip_ints n rest

unfoldable pub skip_unsigned : ℕ → Bytes → Option Bytes
skip_unsigned zero s = some s
skip_unsigned (suc n) s = do (x, rest) ← scan_unsigned s; skip_unsigned n rest

abbrev pub first_byte : Bytes → Option (ℕ × Bytes)
first_byte [] = none
first_byte (c ∷ cs) = some (c, cs)

-- the `sscanf` on the fields behind the name
unfoldable pub parse_fields : Bytes → Bytes → Option Stat
parse_fields comm fields = do
  (state_char, rest) ← first_byte fields
  (ppid_raw, rest) ← scan_int rest
  (pgid_raw, rest) ← scan_int rest
  rest ← skip_ints 3 rest
  rest ← skip_unsigned 5 rest
  (utime, rest) ← scan_unsigned rest
  (stime, rest) ← scan_unsigned rest
  some (record {
    state = state_char;
    ppid = ppid_raw;
    pgid = pgid_raw;
    ticks = (utime + stime) % 2 ^ 64;
    comm = comm;
  })

-- The first line of /proc/<pid>/stat, cut to the buffer. The name stands between the first `(` and
-- the last `)`, which must be behind it. A line that ends at that `)` has no fields here, where the
-- code looks one byte past the NUL.
unfoldable pub parse_proc_stat : Option Bytes → ℕ → Option Stat
parse_proc_stat line comm_size = do
  buf ← line
  behind ← behind_first b'(' (take 511 buf)
  (name, fields_start) ← around_last b')' behind
  parse_fields (take (comm_size - 1) name) (drop 1 fields_start)

-- `proc_read_uid`: the loop, which stops at the line
abbrev pub real_uid : Option (ℕ × Bytes) → ℕ
real_uid none = 0
real_uid (some (uid, rest)) = uid % 2 ^ 32

unfoldable pub find_uid : List Bytes → ℕ
find_uid [] = 0
find_uid (line ∷ lines) =
    let rest = find_uid lines in
    if starts_with line (codes "Uid:") then real_uid (scan_unsigned (drop 4 line)) else rest

unfoldable pub proc_read_uid : Option (List Bytes) → ℕ
proc_read_uid none = 0
proc_read_uid (some lines) = find_uid lines

-- every NUL but the last byte becomes a space; the text ends at a NUL
unfoldable pub with_spaces : Bytes → Bytes
with_spaces [] = []
with_spaces (c ∷ []) = if c == 0 then [] else c ∷ []
with_spaces (c ∷ d ∷ cs) = (if c == 0 then b' ' else c) ∷ with_spaces (d ∷ cs)

unfoldable pub proc_read_cmdline : Option Bytes → ℕ → Bytes
proc_read_cmdline none max_len = []
proc_read_cmdline (some bytes) max_len = with_spaces (take (max_len - 1) bytes)

-- `parse_proc_statm`
unfoldable pub parse_proc_statm : ℤ → Option Bytes → Option ℕ
parse_proc_statm page_size_bytes text = do
  s ← text
  (size_pages, rest) ← scan_unsigned s
  (resident_pages, rest) ← scan_unsigned rest
  some ((resident_pages * get_page_size page_size_bytes) % 2 ^ 64 / 1024)
