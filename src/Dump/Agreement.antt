-- ===== src/Dump/Agreement.antt =====
-- The serializers of src/spike_dump.c write the values of the schema.
use mathlib.Core.Path.{fun_ext}
use spiketrace.Prelude.{ℕ, ◌≡◌, refl, Bool, List, take}
use spiketrace.Double.{Double}
use spiketrace.Snapshot.{ProcEntry, Snapshot}
use spiketrace.Anomaly.Types.{AnomalyResult}
use spiketrace.Json.{Writer}
use spiketrace.Json.Values.{spkt_json_double}
use spiketrace.Json.Document.{Value, emit, emit_items}
use spiketrace.Dump.{each}
use spiketrace.Dump.Entries.{serialize_proc_entry}
use spiketrace.Dump.Snapshots.{serialize_snapshot}
use spiketrace.Dump.Trigger.{serialize_anomaly}
use spiketrace.Dump.Schema.{items_of, entry_value, snapshot_value, anomaly_value}
use spiketrace.Dump.Follow.{follow, follow_members, object-emit, each-emit}

module _ {F : Type 0} ⦃d : Double F⦄ (granted : ℕ → Bool) where
  pub serialize_proc_entry-emit :
      (e : ProcEntry F) (w : Writer)
      → serialize_proc_entry granted e w ≡ emit granted (entry_value e) w
  unfolding serialize_proc_entry entry_value follow follow_members
  serialize_proc_entry-emit e w = object-emit granted _ w

  pub serialize_anomaly-emit :
      (a : AnomalyResult F) (w : Writer)
      → serialize_anomaly granted a w ≡ emit granted (anomaly_value a) w
  unfolding serialize_anomaly anomaly_value follow follow_members
  serialize_anomaly-emit a w = object-emit granted _ w

  -- the loops over a snapshot's processes and cores
  entries-emit :
      (es : List (ProcEntry F))
      → each (serialize_proc_entry granted) es ≡ emit_items granted (items_of entry_value es)
  entries-emit es =
      fun_ext
        (each-emit granted (serialize_proc_entry granted) entry_value serialize_proc_entry-emit es)

  cores-emit :
      (xs : List F)
      → each (spkt_json_double granted) xs ≡ emit_items granted (items_of Value.double xs)
  unfolding emit
  cores-emit xs =
      fun_ext (each-emit granted (spkt_json_double granted) Value.double (λ x w. refl) xs)

  pub serialize_snapshot-emit :
      (t : ℕ) (s : Snapshot F) (w : Writer)
      → serialize_snapshot granted t s w ≡ emit granted (snapshot_value t s) w
  unfolding serialize_snapshot snapshot_value follow follow_members
  serialize_snapshot-emit t s w =
      rw (cores-emit (take s.cpu.valid_core_count s.cpu.per_core_usage_pct)) (
        rw (entries-emit (take s.procs.valid_entry_count s.procs.entries)) (
          rw (entries-emit (take s.procs.valid_rss_count s.procs.top_rss_entries))
            (object-emit granted _ w)))
