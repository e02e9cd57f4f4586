-- ===== src/Dump/Entries.antt =====
-- `serialize_proc_entry` of src/spike_dump.c.
use spiketrace.Prelude.{ℕ, Bool, [], ◌∷◌, some, ◌==◌, if◌then◌else◌, Bytes, codes}
use spiketrace.Double.{Double}
use spiketrace.Snapshot.{ProcEntry}
use spiketrace.Json.{Writer, Result}
use spiketrace.Json.Values.{
  spkt_json_begin_object, spkt_json_end_object, spkt_json_key, spkt_json_string, spkt_json_int,
  spkt_json_uint, spkt_json_double,
}
use spiketrace.Dump.{◌>>◌, spkt_kib_to_mib}

-- `char state_str[2] = {entry->state, '\0'}`
abbrev pub state_str : ℕ → Bytes
state_str c = if c == 0 then [] else c ∷ []

module _ {F : Type 0} ⦃d : Double F⦄ (granted : ℕ → Bool) where
  unfoldable pub serialize_proc_entry : ProcEntry F → Writer → Result
  serialize_proc_entry entry = do
    spkt_json_begin_object granted
    spkt_json_key granted (codes "pid")
    spkt_json_int granted entry.pid
    spkt_json_key granted (codes "ppid")
    spkt_json_int granted entry.ppid
    spkt_json_key granted (codes "uid")
    spkt_json_uint granted entry.uid
    spkt_json_key granted (codes "state")
    spkt_json_string granted (some (state_str entry.state))
    spkt_json_key granted (codes "comm")
    spkt_json_string granted (some entry.comm)
    spkt_json_key granted (codes "cmdline")
    spkt_json_string granted (some entry.cmdline)
    spkt_json_key granted (codes "cpu_pct")
    spkt_json_double granted entry.cpu_usage_pct
    spkt_json_key granted (codes "rss_kib")
    spkt_json_uint granted entry.rss_kib
    spkt_json_key granted (codes "rss_mib")
    spkt_json_uint granted (spkt_kib_to_mib entry.rss_kib)
    spkt_json_end_object granted
