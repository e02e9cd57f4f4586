-- ===== src/Logs/Manager.antt =====
-- The operations of src/log_manager.c on its context. `granted` says whether malloc gives the array
-- of files; the count `none` is an out-parameter that is not written.
pub mod Interval
use spiketrace.Prelude.{
  ℕ, zero, suc, ◌+◌, ◌-◌, ◌*◌, ◌%◌, ◌^◌, Bool, true, false, not, ◌&&◌, ◌||◌, Option, none, some,
  List, [], ◌∷◌, ◌==◌, ltb, leb, if◌then◌else◌, length, Bytes, codes, str_eq, without_slash,
}
use spiketrace.Status.{Status, ok, is_ok, err_invalid_param, err_out_of_memory, err_log_dir_access}
use spiketrace.Config.Types.{Config, CleanupPolicy}
use spiketrace.Logs.{LogFile, Disk, safe_delete_file, scan_log_files}
use spiketrace.Logs.Policies.{
  can_delete, cleanup_by_age, cleanup_by_count, cleanup_by_size, total_bytes,
}

-- `log_manager_ctx_t`
pub record LogManager : Type 0 where
  pub log_directory : Bytes
  pub last_cleanup_ns : ℕ
  pub initialized : Bool

abbrev pub cleared : LogManager
cleared = record { log_directory = []; last_cleanup_ns = 0; initialized = false }

-- `log_manager_init`, where `accessible` is what `access` says after `mkdir`
unfoldable pub log_manager_init : (Bytes → Bool) → Bytes → Status × LogManager
log_manager_init accessible log_dir =
    let directory = without_slash log_dir in
    if length log_dir == 0 || leb 256 (length log_dir)
    then (err_invalid_param, cleared)
    else if accessible directory
    then (ok, record { log_directory = directory; last_cleanup_ns = 0; initialized = true })
    else (err_log_dir_access, record cleared { log_directory = directory })

-- how many of the files are deleted
unfoldable pub delete_all : Disk → List LogFile → ℕ
delete_all disk [] = 0
delete_all disk (f ∷ fs) =
    let n = delete_all disk fs in if f.valid && can_delete disk f then suc n else n

abbrev pub is_absolute : Bytes → Bool
is_absolute [] = false
is_absolute (c ∷ cs) = c == b'/'

abbrev pub matched : Option (List LogFile) → (List LogFile → ℕ) → Status × Option ℕ
matched none count = (err_log_dir_access, none)
matched (some files) count = (ok, some (count files))

unfoldable pub log_manager_delete_manual : Disk → Bool → LogManager → Bytes → Status × Option ℕ
log_manager_delete_manual disk granted ctx pattern =
    let use_pattern = if str_eq pattern (codes "all") then codes "*.json" else pattern in
    let s = safe_delete_file disk pattern in
    if not ctx.initialized
    then (err_invalid_param, none)
    else if is_absolute pattern
    then (s, some (if is_ok s then 1 else 0))
    else if not granted
    then (err_out_of_memory, none)
    else matched (scan_log_files disk ctx.log_directory (some use_pattern)) (delete_all disk)

abbrev pub is_disabled : CleanupPolicy → Bool
is_disabled CleanupPolicy.disabled = true
is_disabled CleanupPolicy.by_age = false
is_disabled CleanupPolicy.by_count = false
is_disabled CleanupPolicy.by_size = false

abbrev pub deleted_of : Option ℕ → ℕ
deleted_of none = 0
deleted_of (some n) = n

module _ {F : Type 0} where
  -- the switch on the policy
  abbrev pub apply_policy : Disk → Config F → CleanupPolicy → List LogFile → ℕ
  apply_policy disk config CleanupPolicy.by_age files =
      (cleanup_by_age disk config.log_max_age_days files).1
  apply_policy disk config CleanupPolicy.by_count files =
      (cleanup_by_count disk config.log_max_count files).1
  apply_policy disk config CleanupPolicy.by_size files =
      (cleanup_by_size disk config.log_max_total_size_mib files).1
  apply_policy disk config CleanupPolicy.disabled files = 0

  -- without files nothing is done
  abbrev pub cleanup_files : Disk → Config F → List LogFile → ℕ
  cleanup_files disk config [] = 0
  cleanup_files disk config (f ∷ fs) = apply_policy disk config config.cleanup_policy (f ∷ fs)

  unfoldable pub log_manager_run_cleanup : Disk → Bool → LogManager → Config F → Status × Option ℕ
  log_manager_run_cleanup disk granted ctx config =
      if not ctx.initialized
      then (err_invalid_param, none)
      else if not granted
      then (err_out_of_memory, none)
      else matched (scan_log_files disk ctx.log_directory none) (cleanup_files disk config)

  unfoldable pub interval_ns : Config F → ℕ
  interval_ns config = config.cleanup_interval_minutes * 60000000000 % 2 ^ 64

  -- it is not yet time
  unfoldable pub is_early : LogManager → Config F → ℕ → Bool
  is_early ctx config current_ns =
      ltb 0 ctx.last_cleanup_ns
      && ltb ctx.last_cleanup_ns current_ns
      && ltb (current_ns - ctx.last_cleanup_ns) (interval_ns config)

  unfoldable pub log_manager_auto_cleanup :
      Disk → Bool → LogManager → Config F → ℕ → Status × Option ℕ × LogManager
  log_manager_auto_cleanup disk granted ctx config current_ns =
      let (s, deleted) = log_manager_run_cleanup disk granted ctx config in
      if not ctx.initialized
      then (err_invalid_param, none, ctx)
      else if not config.enable_auto_cleanup || is_disabled config.cleanup_policy
      then (ok, some 0, ctx)
      else if is_early ctx config current_ns
      then (ok, some 0, ctx)
      else (s, some (deleted_of deleted), record ctx { last_cleanup_ns = current_ns })

unfoldable pub log_manager_get_stats : Disk → Bool → LogManager → Status × Option (ℕ × ℕ)
log_manager_get_stats disk granted ctx =
    if not ctx.initialized
    then (err_invalid_param, none)
    else if not granted
    then (err_out_of_memory, none)
    else elim (scan_log_files disk ctx.log_directory none) [
      | none ↦ (err_log_dir_access, none)
      | some files ↦ (ok, some (length files, total_bytes files 0))
    ]
