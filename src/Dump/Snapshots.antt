-- ===== src/Dump/Snapshots.antt =====
-- `serialize_snapshot` of src/spike_dump.c.
use spiketrace.Prelude.{ℕ, Bool, take, codes}
use spiketrace.Prelude.Int.{sub_u64}
use spiketrace.Double.{Double}
use spiketrace.Snapshot.{CpuSnapshot, MemSnapshot, ProcSnapshot, Snapshot}
use spiketrace.Json.{Writer, Result}
use spiketrace.Json.Values.{
  spkt_json_begin_object, spkt_json_end_object, spkt_json_begin_array, spkt_json_end_array,
  spkt_json_key, spkt_json_uint, spkt_json_double,
}
use spiketrace.Dump.{◌>>◌, each, spkt_ns_to_seconds, spkt_kib_to_mib}
use spiketrace.Dump.Entries.{serialize_proc_entry}

abbrev pub used_pct : {F : Type 0} ⦃d : Double F⦄ → MemSnapshot → F
used_pct ⦃d⦄ mem =
    d.div (d.mul (d.literal 100 1) (d.of_ℕ (sub_u64 mem.total_ram_kib mem.available_ram_kib)))
      (d.of_ℕ mem.total_ram_kib)

abbrev pub offset : {F : Type 0} ⦃d : Double F⦄ → Snapshot F → ℕ → F
offset ⦃d⦄ snap trigger_timestamp_ns =
    d.sub (spkt_ns_to_seconds snap.timestamp_monotonic_ns) (spkt_ns_to_seconds trigger_timestamp_ns)

-- The parts of the function, each with the calls behind it, `next`.
module _ {F : Type 0} ⦃d : Double F⦄ (granted : ℕ → Bool) where
  abbrev pub cpu_calls : CpuSnapshot F → (Writer → Result) → Writer → Result
  cpu_calls cpu next = do
    spkt_json_key granted (codes "cpu")
    spkt_json_begin_object granted
    spkt_json_key granted (codes "global_pct")
    spkt_json_double granted cpu.global_usage_pct
    spkt_json_key granted (codes "per_core_pct")
    spkt_json_begin_array granted
    each (spkt_json_double granted) (take cpu.valid_core_count cpu.per_core_usage_pct)
    spkt_json_end_array granted
    spkt_json_key granted (codes "iowait_pct")
    spkt_json_double granted cpu.iowait_pct
    spkt_json_end_object granted
    next

module _ (granted : ℕ → Bool) where
  abbrev pub kib_calls : MemSnapshot → (Writer → Result) → Writer → Result
  kib_calls mem next = do
    spkt_json_key granted (codes "mem")
    spkt_json_begin_object granted
    spkt_json_key granted (codes "total_kib")
    spkt_json_uint granted mem.total_ram_kib
    spkt_json_key granted (codes "available_kib")
    spkt_json_uint granted mem.available_ram_kib
    spkt_json_key granted (codes "free_kib")
    spkt_json_uint granted mem.free_ram_kib
    spkt_json_key granted (codes "swap_total_kib")
    spkt_json_uint granted mem.swap_total_ram_kib
    spkt_json_key granted (codes "swap_free_kib")
    spkt_json_uint granted mem.swap_free_ram_kib
    spkt_json_key granted (codes "active_kib")
    spkt_json_uint granted mem.active_ram_kib
    spkt_json_key granted (codes "inactive_kib")
    spkt_json_uint granted mem.inactive_ram_kib
    spkt_json_key granted (codes "dirty_kib")
    spkt_json_uint granted mem.dirty_ram_kib
    spkt_json_key granted (codes "slab_kib")
    spkt_json_uint granted mem.slab_ram_kib
    spkt_json_key granted (codes "shmem_kib")
    spkt_json_uint granted mem.shmem_ram_kib
    next

module _ (F : Type 0) ⦃d : Double F⦄ (granted : ℕ → Bool) where
  abbrev pub mib_calls : MemSnapshot → (Writer → Result) → Writer → Result
  mib_calls mem next = do
    spkt_json_key granted (codes "total_mib")
    spkt_json_uint granted (spkt_kib_to_mib mem.total_ram_kib)
    spkt_json_key granted (codes "available_mib")
    spkt_json_uint granted (spkt_kib_to_mib mem.available_ram_kib)
    spkt_json_key granted (codes "free_mib")
    spkt_json_uint granted (spkt_kib_to_mib mem.free_ram_kib)
    spkt_json_key granted (codes "swap_total_mib")
    spkt_json_uint granted (spkt_kib_to_mib mem.swap_total_ram_kib)
    spkt_json_key granted (codes "swap_free_mib")
    spkt_json_uint granted (spkt_kib_to_mib mem.swap_free_ram_kib)
    spkt_json_key granted (codes "swap_used_mib")
    spkt_json_uint granted (spkt_kib_to_mib (sub_u64 mem.swap_total_ram_kib mem.swap_free_ram_kib))
    spkt_json_key granted (codes "active_mib")
    spkt_json_uint granted (spkt_kib_to_mib mem.active_ram_kib)
    spkt_json_key granted (codes "inactive_mib")
    spkt_json_uint granted (spkt_kib_to_mib mem.inactive_ram_kib)
    spkt_json_key granted (codes "dirty_mib")
    spkt_json_uint granted (spkt_kib_to_mib mem.dirty_ram_kib)
    spkt_json_key granted (codes "slab_mib")
    spkt_json_uint granted (spkt_kib_to_mib mem.slab_ram_kib)
    spkt_json_key granted (codes "shmem_mib")
    spkt_json_uint granted (spkt_kib_to_mib mem.shmem_ram_kib)
    spkt_json_key granted (codes "used_pct")
    spkt_json_double granted (used_pct {F = F} mem)
    spkt_json_end_object granted
    next

module _ {F : Type 0} ⦃d : Double F⦄ (granted : ℕ → Bool) where
  abbrev pub procs_calls : ProcSnapshot F → (Writer → Result) → Writer → Result
  procs_calls procs next = do
    spkt_json_key granted (codes "procs")
    spkt_json_begin_array granted
    each (serialize_proc_entry granted) (take procs.valid_entry_count procs.entries)
    spkt_json_end_array granted
    spkt_json_key granted (codes "top_rss_procs")
    spkt_json_begin_array granted
    each (serialize_proc_entry granted) (take procs.valid_rss_count procs.top_rss_entries)
    spkt_json_end_array granted
    next

  unfoldable pub serialize_snapshot : ℕ → Snapshot F → Writer → Result
  serialize_snapshot trigger_timestamp_ns snap = do
    spkt_json_begin_object granted
    spkt_json_key granted (codes "timestamp_ns")
    spkt_json_uint granted snap.timestamp_monotonic_ns
    spkt_json_key granted (codes "uptime_seconds")
    spkt_json_double granted (spkt_ns_to_seconds {F = F} snap.timestamp_monotonic_ns)
    spkt_json_key granted (codes "offset_seconds")
    spkt_json_double granted (offset snap trigger_timestamp_ns)
    cpu_calls granted snap.cpu (
        kib_calls granted snap.mem
          (mib_calls F granted snap.mem (procs_calls snap.procs (spkt_json_end_object granted))))
