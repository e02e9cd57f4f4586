-- ===== src/Logs/Tests.antt =====
-- Runs of the clean-up of the log manager, and its theorem at concrete inputs.
use spiketrace.Prelude.{
  ◌*◌, ◌≤◌, ◌≡◌, refl, true, false, none, some, List, [], ◌∷◌, ◌++◌, ◌==◌, if◌then◌else◌, map,
  arith, length, All, Bytes, codes,
}
use spiketrace.Prelude.Int.{pos}
use spiketrace.Status.{ok, err_log_file_in_use}
use spiketrace.Sorting.{insert, qsort}
use spiketrace.Logs.{
  LogFile, Opened, Locked, Disk, unlink_status, deletion_status, safe_delete_file,
  compare_by_mtime_asc, compare_by_mtime_desc, log_file, scan_entries, scan_log_files,
}
use spiketrace.Logs.Policies.{
  expired, cleanup_by_age, count_loop, cleanup_by_count, total_bytes, size_loop, cleanup_by_size,
}
use spiketrace.Logs.Sorting.{bytes, Older, Newer}
use spiketrace.Double.Fixed.{Fixed, fixed_double}
use spiketrace.Config.Types.{Config, CleanupPolicy}
use spiketrace.Config.Defaults.{config_init_defaults}
use spiketrace.Logs.Manager.{
  LogManager, log_manager_init, delete_all, log_manager_delete_manual, is_early, interval_ns,
  log_manager_auto_cleanup, log_manager_get_stats,
}
use spiketrace.Logs.Manager.Interval.{log_manager_auto_cleanup_spaced}
use spiketrace.Logs.Counted.{cleanup_by_count_keeps}
use spiketrace.Logs.Kept.{Needed, cleanup_by_size_keeps}

-- every file can be deleted, but for those with a `b` in front
abbrev lock_of : Bytes → Locked
lock_of [] = Locked.locked
lock_of (c ∷ cs) = if c == b'b' then Locked.busy else Locked.locked

abbrev disk : Disk
disk = record {
  now = pos 1000000;
  deletion =
      λ path. record { open_result = Opened.opened; lock_result = lock_of path; unlinked = true };
  entries = λ path. some (
      record { name = b'.' ∷ []; stat = none }
      ∷ record {
        name = b'a' ∷ [];
        stat = some (record { is_regular = true; mtime = pos 7; size_bytes = 9 });
      }
      ∷ record {
        name = b'd' ∷ [];
        stat = some (record { is_regular = false; mtime = pos 7; size_bytes = 9 });
      }
      ∷ []);
  matches = λ pattern name. true;
}

abbrev file_a : LogFile
file_a = record { filepath = b'a' ∷ []; mtime = pos 900000; size_bytes = 700000; valid = true }

abbrev file_b : LogFile
file_b = record { filepath = b'b' ∷ []; mtime = pos 300000; size_bytes = 600000; valid = true }

abbrev file_c : LogFile
file_c = record { filepath = b'c' ∷ []; mtime = pos 200000; size_bytes = 500000; valid = true }

abbrev file_d : LogFile
file_d = record file_a { filepath = b'd' ∷ []; mtime = pos 100000 }

scan_takes_files :
    scan_log_files disk (b'l' ∷ []) none
    ≡ some (
        record { filepath = b'l' ∷ b'/' ∷ b'a' ∷ []; mtime = pos 7; size_bytes = 9; valid = true }
        ∷ [])
unfolding scan_log_files scan_entries log_file
scan_takes_files = refl

busy_file_stays : safe_delete_file disk file_b.filepath ≡ err_log_file_in_use
unfolding safe_delete_file deletion_status unlink_status
busy_file_stays = refl

age_run :
    cleanup_by_age disk 8 (file_a ∷ file_b ∷ file_c ∷ [])
    ≡ (file_a ∷ file_b ∷ expired file_c ∷ [], 1)
unfolding cleanup_by_age safe_delete_file deletion_status unlink_status
age_run = refl

count_run :
    cleanup_by_count disk 1 (file_c ∷ file_a ∷ file_b ∷ [])
    ≡ (file_a ∷ file_b ∷ expired file_c ∷ [], 1)
unfolding cleanup_by_count count_loop qsort insert compare_by_mtime_asc compare_by_mtime_desc
    safe_delete_file deletion_status unlink_status
count_run = refl

cleanup_by_size_keeps_example :
    (gone : List LogFile) × (kept : List LogFile) × (qsort compare_by_mtime_asc
        (file_a ∷ file_c ∷ [])
      ≡ gone ++ kept)
    × (cleanup_by_size disk 1 (file_a ∷ file_c ∷ []) ≡ (map expired gone ++ kept, length gone))
    × (bytes kept ≤ 1 * 1024 * 1024)
    × Needed (1 * 1024 * 1024) gone kept
    × All (λ f. All (Older f) kept) gone
unfolding bytes safe_delete_file deletion_status unlink_status
cleanup_by_size_keeps_example =
    cleanup_by_size_keeps disk 1 (file_a ∷ file_c ∷ []) (refl, (refl, tt)) (refl, (refl, tt))
      (omega arith) (omega arith)

size_run : cleanup_by_size disk 1 (file_a ∷ file_c ∷ []) ≡ (expired file_c ∷ file_a ∷ [], 1)
unfolding cleanup_by_size total_bytes size_loop qsort insert compare_by_mtime_asc safe_delete_file
    deletion_status unlink_status
size_run = refl

cleanup_by_count_keeps_example :
    (kept : List LogFile) × (gone : List LogFile) × (qsort compare_by_mtime_desc
        (file_c ∷ file_a ∷ file_d ∷ [])
      ≡ kept ++ gone)
    × (cleanup_by_count disk 1 (file_c ∷ file_a ∷ file_d ∷ [])
        ≡ (kept ++ map expired gone, length gone))
    × (length kept ≡ 1)
    × All (λ f. All (Newer f) gone) kept
unfolding safe_delete_file deletion_status unlink_status
cleanup_by_count_keeps_example =
    cleanup_by_count_keeps disk 1 (file_c ∷ file_a ∷ file_d ∷ []) (refl, (refl, (refl, tt)))
      (refl, (refl, (refl, tt))) (omega arith)

abbrev manager : LogManager
manager = record { log_directory = codes "/log"; last_cleanup_ns = 0; initialized = true }

abbrev hourly : Config Fixed
hourly = record (config_init_defaults (codes "/log")) {
  enable_auto_cleanup = true;
  cleanup_policy = CleanupPolicy.by_age;
}

init_run : log_manager_init (λ directory. true) (codes "/log/") ≡ (ok, manager)
unfolding log_manager_init
init_run = refl

manual_run : log_manager_delete_manual disk true manager (codes "all") ≡ (ok, some 1)
unfolding log_manager_delete_manual delete_all scan_log_files scan_entries log_file safe_delete_file
    deletion_status unlink_status
manual_run = refl

stats_run : log_manager_get_stats disk true manager ≡ (ok, some (1, 9))
unfolding log_manager_get_stats scan_log_files scan_entries log_file total_bytes
stats_run = refl

log_manager_auto_cleanup_spaced_example :
    let after = (log_manager_auto_cleanup disk true manager hourly 5).2 in
    (after ≡ record manager { last_cleanup_ns = 5 })
    × (log_manager_auto_cleanup disk false after hourly 70 ≡ (ok, some 0, after))
unfolding is_early interval_ns
log_manager_auto_cleanup_spaced_example =
    log_manager_auto_cleanup_spaced disk disk true false manager hourly 5 70 refl refl refl refl
      (omega arith) (omega arith) (omega arith)
