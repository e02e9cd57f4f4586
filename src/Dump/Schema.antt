-- ===== src/Dump/Schema.antt =====
-- The dump as a JSON value: what the serializers of src/spike_dump.c are to write.
use spiketrace.Prelude.{ℕ, List, [], ◌∷◌, ◌++◌, take, Bytes, codes}
use spiketrace.Prelude.Int.{pos, sub_u64, ◌/ℤ◌}
use spiketrace.Double.{Double}
use spiketrace.Snapshot.{ProcEntry, Snapshot}
use spiketrace.Anomaly.Types.{AnomalyResult}
use spiketrace.Json.Document.{Value, Items, Members}
use spiketrace.Dump.{spkt_ns_to_seconds, spkt_kib_to_mib}
use spiketrace.Dump.Entries.{state_str}
use spiketrace.Dump.Snapshots.{used_pct, offset}
use spiketrace.Dump.Trigger.{type_str, type_desc, scope_str, scope_desc}

module _ {F : Type 0} where
  abbrev pub members : List (Bytes × Value F) → Members F
  members [] = Members.end
  members ((key, v) ∷ rest) = Members.field key v (members rest)

  unfoldable pub items_of : {A : Type 0} → (A → Value F) → List A → Items F
  items_of f [] = Items.nil
  items_of f (x ∷ xs) = Items.cons (f x) (items_of f xs)

  unfoldable pub entry_value : ProcEntry F → Value F
  entry_value entry = Value.object (
      members (
        (codes "pid", Value.int entry.pid)
        ∷ (codes "ppid", Value.int entry.ppid)
        ∷ (codes "uid", Value.uint entry.uid)
        ∷ (codes "state", Value.text (state_str entry.state))
        ∷ (codes "comm", Value.text entry.comm)
        ∷ (codes "cmdline", Value.text entry.cmdline)
        ∷ (codes "cpu_pct", Value.double entry.cpu_usage_pct)
        ∷ (codes "rss_kib", Value.uint entry.rss_kib)
        ∷ (codes "rss_mib", Value.uint (spkt_kib_to_mib entry.rss_kib))
        ∷ []))

module _ {F : Type 0} ⦃d : Double F⦄ where
  unfoldable pub snapshot_value : ℕ → Snapshot F → Value F
  snapshot_value trigger_timestamp_ns snap = Value.object (
      members (
        (codes "timestamp_ns", Value.uint snap.timestamp_monotonic_ns)
        ∷ (codes "uptime_seconds", Value.double (spkt_ns_to_seconds snap.timestamp_monotonic_ns))
        ∷ (codes "offset_seconds", Value.double (offset snap trigger_timestamp_ns))
        ∷ (
          codes "cpu",
          Value.object (
              members (
                (codes "global_pct", Value.double snap.cpu.global_usage_pct)
                ∷ (
                  codes "per_core_pct",
                  Value.array (
                      items_of Value.double
                        (take snap.cpu.valid_core_count snap.cpu.per_core_usage_pct)),
                )
                ∷ (codes "iowait_pct", Value.double snap.cpu.iowait_pct)
                ∷ [])),
        )
        ∷ (
          codes "mem",
          Value.object (
              members (
                (codes "total_kib", Value.uint snap.mem.total_ram_kib)
                ∷ (codes "available_kib", Value.uint snap.mem.available_ram_kib)
                ∷ (codes "free_kib", Value.uint snap.mem.free_ram_kib)
                ∷ (codes "swap_total_kib", Value.uint snap.mem.swap_total_ram_kib)
                ∷ (codes "swap_free_kib", Value.uint snap.mem.swap_free_ram_kib)
                ∷ (codes "active_kib", Value.uint snap.mem.active_ram_kib)
                ∷ (codes "inactive_kib", Value.uint snap.mem.inactive_ram_kib)
                ∷ (codes "dirty_kib", Value.uint snap.mem.dirty_ram_kib)
                ∷ (codes "slab_kib", Value.uint snap.mem.slab_ram_kib)
                ∷ (codes "shmem_kib", Value.uint snap.mem.shmem_ram_kib)
                ∷ (codes "total_mib", Value.uint (spkt_kib_to_mib snap.mem.total_ram_kib))
                ∷ (codes "available_mib", Value.uint (spkt_kib_to_mib snap.mem.available_ram_kib))
                ∷ (codes "free_mib", Value.uint (spkt_kib_to_mib snap.mem.free_ram_kib))
                ∷ (codes "swap_total_mib", Value.uint (spkt_kib_to_mib snap.mem.swap_total_ram_kib))
                ∷ (codes "swap_free_mib", Value.uint (spkt_kib_to_mib snap.mem.swap_free_ram_kib))
                ∷ (
                  codes "swap_used_mib",
                  Value.uint (
                      spkt_kib_to_mib
                        (sub_u64 snap.mem.swap_total_ram_kib snap.mem.swap_free_ram_kib)),
                )
                ∷ (codes "active_mib", Value.uint (spkt_kib_to_mib snap.mem.active_ram_kib))
                ∷ (codes "inactive_mib", Value.uint (spkt_kib_to_mib snap.mem.inactive_ram_kib))
                ∷ (codes "dirty_mib", Value.uint (spkt_kib_to_mib snap.mem.dirty_ram_kib))
                ∷ (codes "slab_mib", Value.uint (spkt_kib_to_mib snap.mem.slab_ram_kib))
                ∷ (codes "shmem_mib", Value.uint (spkt_kib_to_mib snap.mem.shmem_ram_kib))
                ∷ (codes "used_pct", Value.double (used_pct snap.mem))
                ∷ [])),
        )
        ∷ (
          codes "procs",
          Value.array (items_of entry_value (take snap.procs.valid_entry_count snap.procs.entries)),
        )
        ∷ (
          codes "top_rss_procs",
          Value.array
              (items_of entry_value (take snap.procs.valid_rss_count snap.procs.top_rss_entries)),
        )
        ∷ []))

  unfoldable pub anomaly_value : AnomalyResult F → Value F
  anomaly_value anomaly = Value.object (
      members (
        (codes "type", Value.text (type_str anomaly.kind))
        ∷ (codes "type_description", Value.text (type_desc anomaly.kind))
        ∷ (codes "pid", Value.int anomaly.spike_pid)
        ∷ (codes "comm", Value.text anomaly.spike_comm)
        ∷ (codes "cpu_pct", Value.double anomaly.spike_cpu_pct)
        ∷ (codes "baseline_pct", Value.double anomaly.spike_baseline_pct)
        ∷ (codes "delta_pct", Value.double anomaly.spike_delta)
        ∷ (codes "is_new_process", Value.bool anomaly.is_new_process_spike)
        ∷ (codes "mem_available_kib", Value.uint anomaly.mem_available_kib)
        ∷ (codes "mem_baseline_kib", Value.uint anomaly.mem_baseline_kib)
        ∷ (codes "mem_delta_kib", Value.int anomaly.mem_delta_kib)
        ∷ (codes "mem_used_pct", Value.double anomaly.mem_used_pct)
        ∷ (codes "mem_available_mib", Value.uint (spkt_kib_to_mib anomaly.mem_available_kib))
        ∷ (codes "mem_baseline_mib", Value.uint (spkt_kib_to_mib anomaly.mem_baseline_kib))
        ∷ (codes "mem_delta_mib", Value.int (anomaly.mem_delta_kib /ℤ 1024))
        ∷ (codes "swap_used_kib", Value.uint anomaly.swap_used_kib)
        ∷ (codes "swap_baseline_kib", Value.uint anomaly.swap_baseline_kib)
        ∷ (codes "swap_delta_kib", Value.int anomaly.swap_delta_kib)
        ∷ (codes "swap_used_mib", Value.uint (spkt_kib_to_mib anomaly.swap_used_kib))
        ∷ (codes "swap_baseline_mib", Value.uint (spkt_kib_to_mib anomaly.swap_baseline_kib))
        ∷ (codes "swap_delta_mib", Value.int (anomaly.swap_delta_kib /ℤ 1024))
        ∷ (
          codes "policy",
          Value.object (
              members (
                (codes "scope", Value.text (scope_str anomaly.trigger_scope))
                ∷ (codes "scope_key", Value.int anomaly.scope_key)
                ∷ (codes "description", Value.text (scope_desc anomaly.trigger_scope))
                ∷ [])),
        )
        ∷ (codes "origin_snapshot_index", Value.int anomaly.origin_snapshot_idx)
        ∷ []))

  -- the timestamp is a member only if there is one
  abbrev pub created : Bytes → List (Bytes × Value F)
  created [] = []
  created (c ∷ cs) = (codes "created_at", Value.text (c ∷ cs)) ∷ []

  abbrev pub dump_members : Bytes → List (Snapshot F) → AnomalyResult F → ℕ → List (Bytes × Value F)
  dump_members iso snapshots anomaly timestamp_ns =
      (codes "schema_version", Value.int (pos 5))
      ∷ (created iso
          ++ ((codes "uptime_seconds", Value.double (spkt_ns_to_seconds timestamp_ns))
              ∷ (codes "dump_timestamp_ns", Value.uint timestamp_ns)
              ∷ (codes "trigger", anomaly_value anomaly)
              ∷ (codes "snapshots", Value.array (items_of (snapshot_value timestamp_ns) snapshots))
              ∷ []))

  -- a dump of the schema's version 5
  unfoldable pub dump_value : Bytes → List (Snapshot F) → AnomalyResult F → ℕ → Value F
  dump_value iso snapshots anomaly timestamp_ns =
      Value.object (members (dump_members iso snapshots anomaly timestamp_ns))
