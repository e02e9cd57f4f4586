-- ===== src/Logs.antt =====
-- src/log_manager.c: which dumps the clean-up deletes. What the system answers is a record, `Disk`:
-- the time, the outcome of deleting a path, and the entries of the directory. No two entries of a
-- directory have the same path, so the answers do not depend on what was deleted before.
pub mod Policies
pub mod Sorting
pub mod Kept
pub mod Counted
pub mod Manager
mod Tests
use spiketrace.Prelude.{
  ℕ, zero, suc, ◌+◌, ◌*◌, ◌%◌, ◌^◌, Bool, true, false, not, ◌&&◌, ◌||◌, Option, none, some, List,
  [], ◌∷◌, ◌++◌, ltb, leb, ◌==◌, if◌then◌else◌, length, Bytes, codes,
}
use spiketrace.Prelude.Int.{ℤ, pos, negsuc, ltb_ℤ, ◌-ℤ◌}
use spiketrace.Status.{Status, ok, err_log_dir_access, err_log_file_in_use, err_log_delete_failed}

-- `log_file_info_t`
pub record LogFile : Type 0 where
  pub filepath : Bytes
  pub mtime : ℤ
  pub size_bytes : ℕ
  pub valid : Bool

-- the outcomes of `open`, and of `flock` on what it opened
pub data Opened : Type 0 where
  opened no_entry denied : Opened

pub data Locked : Type 0 where
  locked busy failed : Locked

pub record Deletion : Type 0 where
  pub open_result : Opened
  pub lock_result : Locked
  pub unlinked : Bool

-- what `stat` says of an entry: whether it is a regular file, its time and its size
pub record Stat : Type 0 where
  pub is_regular : Bool
  pub mtime : ℤ
  pub size_bytes : ℕ

pub record Entry : Type 0 where
  pub name : Bytes
  pub stat : Option Stat

pub record Disk : Type 0 where
  pub now : ℤ
  pub deletion : Bytes → Deletion
  -- what `readdir` yields, or `none` if the directory cannot be opened
  pub entries : Bytes → Option (List Entry)
  -- `fnmatch (pattern, name, 0) == 0`
  pub matches : Bytes → Bytes → Bool

unfoldable pub unlink_status : Locked → Bool → Status
unlink_status Locked.busy unlinked = err_log_file_in_use
unlink_status Locked.failed unlinked = err_log_delete_failed
unlink_status Locked.locked unlinked = if unlinked then ok else err_log_delete_failed

unfoldable pub deletion_status : Opened → Locked → Bool → Status
deletion_status Opened.no_entry l u = ok
deletion_status Opened.denied l u = err_log_dir_access
deletion_status Opened.opened l u = unlink_status l u

unfoldable pub safe_delete_file : Disk → Bytes → Status
safe_delete_file disk path =
    let d = disk.deletion path in deletion_status d.open_result d.lock_result d.unlinked

unfoldable pub compare_by_mtime_asc : LogFile → LogFile → ℤ
compare_by_mtime_asc a b =
    if not a.valid && not b.valid
    then pos 0
    else if not a.valid
    then pos 1
    else if not b.valid
    then negsuc 0
    else if ltb_ℤ a.mtime b.mtime
    then negsuc 0
    else if ltb_ℤ b.mtime a.mtime
    then pos 1
    else pos 0

unfoldable pub compare_by_mtime_desc : LogFile → LogFile → ℤ
compare_by_mtime_desc a b = pos 0 -ℤ compare_by_mtime_asc a b

-- `LOG_MANAGER_MAX_FILES`, and the size of `filepath`
abbrev pub max_files : ℕ
max_files = 1024

abbrev pub is_hidden : Bytes → Bool
is_hidden [] = false
is_hidden (c ∷ cs) = c == b'.'

abbrev info_of : Bytes → Option Stat → Option LogFile
info_of path none = none
info_of path (some s) =
    if s.is_regular
    then some (record { filepath = path; mtime = s.mtime; size_bytes = s.size_bytes; valid = true })
    else none

-- `LOG_FILE_PATTERN`
abbrev pub log_file_pattern : Bytes
log_file_pattern = codes "spike_*.json"

abbrev pattern_or_default : Option Bytes → Bytes
pattern_or_default none = log_file_pattern
pattern_or_default (some pattern) = pattern

-- the entry as a log file, if the loop of `scan_log_files` takes it
unfoldable pub log_file : Disk → Bytes → Option Bytes → Entry → Option LogFile
log_file disk directory pattern e =
    let match_pattern = pattern_or_default pattern in
    let path = directory ++ b'/' ∷ e.name in
    if is_hidden e.name || not (disk.matches match_pattern e.name) || leb 256 (length path)
    then none
    else info_of path e.stat

-- the loop, with `room` files to go
unfoldable pub scan_entries : Disk → Bytes → Option Bytes → List Entry → ℕ → List LogFile
scan_entries disk directory pattern [] room = []
scan_entries disk directory pattern (e ∷ es) zero = []
scan_entries disk directory pattern (e ∷ es) (suc room) =
    let found = log_file disk directory pattern e in
    elim found [
      | none ↦ scan_entries disk directory pattern es (suc room)
      | some f ↦ f ∷ scan_entries disk directory pattern es room
    ]

unfoldable pub scan_log_files : Disk → Bytes → Option Bytes → Option (List LogFile)
scan_log_files disk directory pattern = elim (disk.entries directory) [
  | none ↦ none
  | some es ↦ some (scan_entries disk directory pattern es max_files)
]
