-- ===== src/Sampler/Jiffies.antt =====
-- src/cpu.c and include/cpu.h: the CPU times of /proc/stat and the usage between two readings.
pub mod Usage
pub mod Lines
pub mod ReadBack
use spiketrace.Prelude.{
  ℕ, zero, suc, ◌+◌, ◌*◌, ◌%◌, ◌^◌, Bool, true, false, not, ◌||◌, Option, none, some, List, [], ◌∷◌,
  ltb, leb, ◌==◌, if◌then◌else◌, length, get_or, set, drop, Bytes, codes, str_eq,
}
use spiketrace.Prelude.Int.{sub_u64}
use spiketrace.Status.{
  Status, ok, is_ok, err_invalid_param, err_cpu_open_proc, err_cpu_parse_failed,
}
use spiketrace.Double.{Double, nought}
use spiketrace.Config.Path.{starts_with}
use spiketrace.Sampler.Scan.{is_digit, digits, scan_word, scan_many}

-- `struct cpu_jiffies`
pub record Jiffies : Type 0 where
  pub user : ℕ
  pub nice : ℕ
  pub system : ℕ
  pub idle : ℕ
  pub iowait : ℕ
  pub irq : ℕ
  pub softirq : ℕ
  pub steal : ℕ
  pub guest : ℕ
  pub guest_nice : ℕ

-- the conversions that succeeded, in their order, and zeros
abbrev pub jiffies_of : List ℕ → Jiffies
jiffies_of xs = record {
  user = get_or xs 0 0;
  nice = get_or xs 1 0;
  system = get_or xs 2 0;
  idle = get_or xs 3 0;
  iowait = get_or xs 4 0;
  irq = get_or xs 5 0;
  softirq = get_or xs 6 0;
  steal = get_or xs 7 0;
  guest = get_or xs 8 0;
  guest_nice = get_or xs 9 0;
}

-- `%*s`, and the ten numbers behind it, as far as they scan
abbrev pub numbers_behind : Option (Bytes × Bytes) → List ℕ
numbers_behind none = []
numbers_behind (some (label, rest)) = scan_many 10 rest

-- `CPU_STAT_MIN_REQUIRED_FIELDS`
abbrev pub min_required_fields : ℕ
min_required_fields = 4

-- a word of the line is shorter than the line's buffer
unfoldable pub parse_cpu_line : Bytes → Status × Jiffies
parse_cpu_line line =
    let xs = numbers_behind (scan_word 256 line) in
    (if leb min_required_fields (length xs) then ok else err_cpu_parse_failed, jiffies_of xs)

-- the number, if nothing is behind it
abbrev pub whole_number : ℕ × Bytes → Option ℕ
whole_number (n, []) = some (n + 1)
whole_number (n, c ∷ cs) = none

abbrev pub core_suffix : Bytes → Option ℕ
core_suffix [] = none
core_suffix (c ∷ cs) = if is_digit c then whole_number (digits (c ∷ cs) 0) else none

-- the index of a label, where -1 is `none`
unfoldable pub parse_core_num : Bytes → Option ℕ
parse_core_num label = if str_eq label (codes "cpu") then some 0 else core_suffix (drop 3 label)

-- the array and the number of lines that were parsed
abbrev pub store_line : ℕ → Bytes → Option ℕ → List Jiffies × ℕ → List Jiffies × ℕ
store_line max_cores line none (jiffies, parsed) = (jiffies, parsed)
store_line max_cores line (some idx) (jiffies, parsed) =
    let (status, j) = parse_cpu_line line in
    if leb max_cores idx
    then (jiffies, parsed)
    else (set jiffies idx j, if is_ok status then suc parsed else parsed)

abbrev pub label_index : Option (Bytes × Bytes) → Option ℕ
label_index none = none
label_index (some (label, rest)) = parse_core_num label

unfoldable pub read_line : ℕ → Bytes → List Jiffies × ℕ → List Jiffies × ℕ
read_line max_cores line state = store_line max_cores line (label_index (scan_word 7 line)) state

-- the loop, which stops at the first other line
unfoldable pub read_lines : ℕ → List Bytes → List Jiffies × ℕ → List Jiffies × ℕ
read_lines max_cores [] state = state
read_lines max_cores (line ∷ lines) state =
    let rest = read_lines max_cores lines (read_line max_cores line state) in
    if starts_with line (codes "cpu") then rest else state

abbrev pub read_all : ℕ → Option (List Bytes) → List Jiffies → Status × List Jiffies
read_all max_cores none jiffies = (err_cpu_open_proc, jiffies)
read_all max_cores (some lines) jiffies =
    let (jiffies', parsed) = read_lines max_cores lines (jiffies, 0) in
    (if ltb 0 parsed then ok else err_cpu_parse_failed, jiffies')

unfoldable pub cpu_read_jiffies : Option (List Bytes) → ℕ → List Jiffies → Status × List Jiffies
cpu_read_jiffies file max_cores jiffies =
    if max_cores == 0 then (err_invalid_param, jiffies) else read_all max_cores file jiffies

unfoldable pub total_jiffies : Jiffies → ℕ
total_jiffies j =
    (j.user + j.nice + j.system + j.idle + j.iowait + j.irq + j.softirq + j.steal) % 2 ^ 64

unfoldable pub idle_jiffies : Jiffies → ℕ
idle_jiffies j = (j.idle + j.iowait) % 2 ^ 64

abbrev pub no_jiffies : Jiffies
no_jiffies = jiffies_of []

module _ {F : Type 0} ⦃d : Double F⦄ where
  abbrev pub hundred : F
  hundred = d.literal 100 1

  -- the usage between two readings of a core
  unfoldable pub core_usage : Jiffies → Jiffies → F
  core_usage old_j new_j =
      let total_delta = sub_u64 (total_jiffies new_j) (total_jiffies old_j) in
      let idle_delta = sub_u64 (idle_jiffies new_j) (idle_jiffies old_j) in
      let usage =
        d.mul hundred (d.sub (d.literal 1 1) (d.div (d.of_ℕ idle_delta) (d.of_ℕ total_delta))) in
      if total_delta == 0
      then nought
      else if ltb total_delta idle_delta
      then nought
      else if d.lt usage nought
      then nought
      else if d.lt hundred usage
      then hundred
      else usage

  -- the loop from core `i`, with `left` cores to go
  unfoldable pub usage_loop : List Jiffies → List Jiffies → ℕ → ℕ → List F
  usage_loop old new i zero = []
  usage_loop old new i (suc left) =
      core_usage (get_or old (i + 1) no_jiffies) (get_or new (i + 1) no_jiffies)
      ∷ usage_loop old new (i + 1) left

  -- `out_usage` before the call is what it keeps on an error
  unfoldable pub cpu_calc_usage_pct_batch :
      List Jiffies → List Jiffies → ℕ → List F → Status × List F
  cpu_calc_usage_pct_batch old_jiffies new_jiffies num_cores out_usage =
      if num_cores == 0
      then (err_invalid_param, out_usage)
      else (ok, usage_loop old_jiffies new_jiffies 0 num_cores)
