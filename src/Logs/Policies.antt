-- ===== src/Logs/Policies.antt =====
-- The three clean-up policies of src/log_manager.c, and `log_manager_get_stats`'s sum.
use spiketrace.Prelude.{
  ℕ, zero, suc, ◌+◌, ◌-◌, ◌*◌, ◌%◌, ◌^◌, Bool, false, ◌&&◌, List, [], ◌∷◌, ltb, leb, if◌then◌else◌,
  length, get_or, set,
}
use spiketrace.Prelude.Int.{ℤ, pos, ltb_ℤ, ◌-ℤ◌}
use spiketrace.Status.{is_ok}
use spiketrace.Sorting.{qsort}
use spiketrace.Logs.{LogFile, Disk, safe_delete_file, compare_by_mtime_asc, compare_by_mtime_desc}

-- a file that is gone
abbrev pub expired : LogFile → LogFile
expired f = record f { valid = false }

abbrev pub can_delete : Disk → LogFile → Bool
can_delete disk f = is_ok (safe_delete_file disk f.filepath)

abbrev pub max_age_seconds : ℕ → ℤ
max_age_seconds days = pos (days * 86400)

-- the files with those that the policy deletes marked, and their number
unfoldable pub cleanup_by_age : Disk → ℕ → List LogFile → List LogFile × ℕ
cleanup_by_age disk days [] = ([], 0)
cleanup_by_age disk days (f ∷ fs) =
    let (fs', n) = cleanup_by_age disk days fs in
    if f.valid && ltb_ℤ (max_age_seconds days) (disk.now -ℤ f.mtime) && can_delete disk f
    then (expired f ∷ fs', suc n)
    else (f ∷ fs', n)

abbrev pub no_file : LogFile
no_file = record { filepath = []; mtime = pos 0; size_bytes = 0; valid = false }

-- the loop of `cleanup_by_count`, from the index `keep + left - 1` down to `keep`
unfoldable pub count_loop : Disk → ℕ → ℕ → List LogFile → ℕ → List LogFile × ℕ
count_loop disk keep zero files deleted = (files, deleted)
count_loop disk keep (suc left) files deleted =
    let f = get_or files (keep + left) no_file in
    let gone = f.valid && can_delete disk f in
    count_loop disk keep left (if gone then set files (keep + left) (expired f) else files)
      (if gone then suc deleted else deleted)

unfoldable pub cleanup_by_count : Disk → ℕ → List LogFile → List LogFile × ℕ
cleanup_by_count disk max_count files =
    let n = length files in
    if leb n max_count
    then (files, 0)
    else count_loop disk max_count (n - max_count) (qsort compare_by_mtime_desc files) 0

-- the sum of the sizes, in 64 bits
unfoldable pub total_bytes : List LogFile → ℕ → ℕ
total_bytes [] sum = sum
total_bytes (f ∷ fs) sum = total_bytes fs (if f.valid then (sum + f.size_bytes) % 2 ^ 64 else sum)

-- the loop of `cleanup_by_size`
unfoldable pub size_loop : Disk → ℕ → ℕ → List LogFile → List LogFile × ℕ
size_loop disk to_free freed [] = ([], 0)
size_loop disk to_free freed (f ∷ fs) =
    let gone = f.valid && can_delete disk f in
    let (fs', n) =
      size_loop disk to_free (if gone then (freed + f.size_bytes) % 2 ^ 64 else freed) fs in
    if ltb freed to_free
    then ((if gone then expired f else f) ∷ fs', if gone then suc n else n)
    else (f ∷ fs, 0)

unfoldable pub cleanup_by_size : Disk → ℕ → List LogFile → List LogFile × ℕ
cleanup_by_size disk mib files =
    let total = total_bytes files 0 in
    let max_bytes = mib * 1024 * 1024 in
    if leb total max_bytes
    then (files, 0)
    else size_loop disk (total - max_bytes) 0 (qsort compare_by_mtime_asc files)
