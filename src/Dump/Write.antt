-- ===== src/Dump/Write.antt =====
-- `spike_dump_init` and `spike_dump_write` of src/spike_dump.c, and the timestamp of
-- include/time_format.h. What the system answers is an argument; `strftime` gives the text of the
-- local time, or nothing.
pub mod Document
pub mod Ends
pub mod Saves
use spiketrace.Prelude.{
  ℕ, zero, suc, ◌+◌, ◌-◌, Bool, true, false, not, ◌&&◌, ◌||◌, Option, none, some, List, [], ◌∷◌,
  ◌++◌, ltb, leb, ◌==◌, if◌then◌else◌, length, take, drop, get_or, Bytes, codes, without_slash,
}
use spiketrace.Prelude.Int.{pos}
use spiketrace.Status.{
  Status, ok, is_ok, err_invalid_param, err_null_pointer, err_dump_open_failed, err_json_overflow,
}
use spiketrace.Double.{Double}
use spiketrace.Snapshot.{Snapshot}
use spiketrace.Anomaly.Types.{AnomalyResult}
use spiketrace.Json.{Writer, Result}
use spiketrace.Json.Values.{
  decimal, spkt_json_init, spkt_json_begin_object, spkt_json_end_object, spkt_json_begin_array,
  spkt_json_end_array, spkt_json_key, spkt_json_string, spkt_json_int, spkt_json_uint,
  spkt_json_double,
}
use spiketrace.Dump.{◌>>◌, each, spkt_ns_to_seconds}
use spiketrace.Dump.Snapshots.{serialize_snapshot}
use spiketrace.Dump.Trigger.{serialize_anomaly}
use spiketrace.Dump.Atomic.{Change, Answers, write_atomic}

-- `spike_dump_ctx_t`
pub record DumpContext : Type 0 where
  pub output_dir : Bytes
  pub dump_count : ℕ
  pub spike_gid : ℕ

abbrev pub cleared : DumpContext
cleared = record { output_dir = []; dump_count = 0; spike_gid = 0 }

-- `SPIKE_DUMP_DEFAULT_DIR`, `SPIKE_DUMP_MAX_SNAPSHOTS`, `SPIKE_DUMP_PATH_MAX`,
-- `SPIKE_DUMP_SCHEMA_VERSION`
abbrev pub default_dir : Bytes
default_dir = codes "/var/lib/spiketrace"

abbrev pub max_snapshots : ℕ
max_snapshots = 10

abbrev pub path_max : ℕ
path_max = 256

abbrev pub schema_version : ℕ
schema_version = 5

-- `dir ? dir : SPIKE_DUMP_DEFAULT_DIR`
abbrev pub use_dir : Option Bytes → Bytes
use_dir none = default_dir
use_dir (some dir) = dir

-- the group that `getgrnam` finds, or 0
abbrev pub group_id : Option ℕ → ℕ
group_id none = 0
group_id (some gid) = gid

-- `accessible` is what `access` says after `spkt_mkdir_p`, `group` what `getgrnam` finds
unfoldable pub spike_dump_init : (Bytes → Bool) → Option ℕ → Option Bytes → Status × DumpContext
spike_dump_init accessible group dir =
    let output_dir = without_slash (use_dir dir) in
    if leb path_max (length (use_dir dir))
    then (err_invalid_param, cleared)
    else if accessible output_dir
    then (ok, record { output_dir = output_dir; dump_count = 0; spike_gid = group_id group })
    else (err_dump_open_failed, record cleared { output_dir = output_dir })

-- the colon in the offset of the time zone, if the text ends with one
unfoldable pub with_colon : Bytes → Bytes
with_colon s =
    let n = length s in
    let sign = get_or s (n - 5) 0 in
    if ltb (n + 1) 32 && leb 5 n && (sign == b'+' || sign == b'-')
    then take (n - 2) s ++ (b':' ∷ drop (n - 2) s)
    else s

-- `spkt_format_iso8601` with a buffer of 32 bytes
unfoldable pub spkt_format_iso8601 : Option Bytes → Bytes
spkt_format_iso8601 none = []
spkt_format_iso8601 (some s) = with_colon s

abbrev pub time_str : Option Bytes → ℕ → Bytes
time_str none timestamp_ns = codes "unknown_" ++ decimal timestamp_ns
time_str (some s) timestamp_ns = s

abbrev pub dump_path : DumpContext → Bytes → Bytes
dump_path ctx time =
    ctx.output_dir
    ++ (codes "/spike_" ++ (time ++ (b'_' ∷ (decimal ctx.dump_count ++ codes ".json"))))

module _ (granted : ℕ → Bool) where
  -- `created_at`, if there is a timestamp
  unfoldable pub created_at : Bytes → Writer → Result
  created_at [] w = (ok, w)
  created_at (c ∷ cs) w =
      (spkt_json_key granted (codes "created_at") >> spkt_json_string granted (some (c ∷ cs))) w

module _ {F : Type 0} ⦃d : Double F⦄ (granted : ℕ → Bool) where
  -- the calls of `spike_dump_write` that build the document
  unfoldable pub build_document : Bytes → List (Snapshot F) → AnomalyResult F → ℕ → Writer → Result
  build_document iso snapshots anomaly timestamp_ns = do
    spkt_json_begin_object granted
    spkt_json_key granted (codes "schema_version")
    spkt_json_int granted (pos schema_version)
    created_at granted iso
    spkt_json_key granted (codes "uptime_seconds")
    spkt_json_double granted (spkt_ns_to_seconds {F = F} timestamp_ns)
    spkt_json_key granted (codes "dump_timestamp_ns")
    spkt_json_uint granted timestamp_ns
    spkt_json_key granted (codes "trigger")
    serialize_anomaly granted anomaly
    spkt_json_key granted (codes "snapshots")
    spkt_json_begin_array granted
    each (serialize_snapshot granted timestamp_ns) snapshots
    spkt_json_end_array granted
    spkt_json_end_object granted

-- what the system answers to one dump: the local time twice, `malloc`, and the file calls
pub record DumpAnswers : Type 0 where
  pub local_time : Option Bytes
  pub iso_time : Option Bytes
  pub allocated : Bool
  pub file : Answers

-- a result with the context after it and the changes of the files; `none` while still writing
abbrev pub Dumped : Type 0
Dumped = Option (Status × DumpContext × List Change)

abbrev pub not_dumped : DumpContext → Status → Dumped
not_dumped ctx s = some (s, ctx, [])

-- the file is written, and counted if that succeeds
abbrev pub counted : DumpContext → Option (Status × List Change) → Dumped
counted ctx none = none
counted ctx (some (s, cs)) =
    some (s, if is_ok s then record ctx { dump_count = ctx.dump_count + 1 } else ctx, cs)

unfoldable pub save : DumpContext → Answers → Bytes → Result → Dumped
save ctx answers filepath (s, w) =
    if not (is_ok s)
    then not_dumped ctx s
    else if w.error
    then not_dumped ctx err_json_overflow
    else counted ctx (write_atomic filepath w.text answers)

module _ {F : Type 0} ⦃d : Double F⦄ (granted : ℕ → Bool) where
  abbrev pub write_document :
      DumpContext
      → DumpAnswers
      → Bytes
      → List (Snapshot F)
      → AnomalyResult F
      → ℕ
      → Status × Option Writer
      → Dumped
  write_document ctx answers filepath snapshots anomaly timestamp_ns (s, none) = not_dumped ctx s
  write_document ctx answers filepath snapshots anomaly timestamp_ns (s, some w) =
      save ctx answers.file filepath (
        build_document granted (spkt_format_iso8601 answers.iso_time) (take max_snapshots snapshots)
          anomaly timestamp_ns w)

  -- the function behind its null checks
  unfoldable pub spike_dump_write :
      DumpContext → DumpAnswers → List (Snapshot F) → AnomalyResult F → ℕ → Dumped
  spike_dump_write ctx answers snapshots anomaly timestamp_ns =
      let filepath = dump_path ctx (time_str answers.local_time timestamp_ns) in
      if length snapshots == 0
      then not_dumped ctx err_invalid_param
      else if leb path_max (length filepath)
      then not_dumped ctx err_invalid_param
      else write_document ctx answers filepath snapshots anomaly timestamp_ns
          (spkt_json_init answers.allocated 0)
