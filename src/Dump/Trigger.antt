-- ===== src/Dump/Trigger.antt =====
-- `serialize_anomaly` of src/spike_dump.c.
use spiketrace.Prelude.{ℕ, Bool, some, Bytes, codes}
use spiketrace.Prelude.Int.{◌/ℤ◌}
use spiketrace.Double.{Double}
use spiketrace.Config.Types.{TriggerScope}
use spiketrace.Anomaly.Types.{AnomalyType, AnomalyResult}
use spiketrace.Json.{Writer, Result}
use spiketrace.Json.Values.{
  spkt_json_begin_object, spkt_json_end_object, spkt_json_key, spkt_json_string, spkt_json_int,
  spkt_json_uint, spkt_json_double, spkt_json_bool,
}
use spiketrace.Dump.{◌>>◌, spkt_kib_to_mib}

abbrev pub type_str : AnomalyType → Bytes
type_str AnomalyType.cpu_delta = codes "cpu_delta"
type_str AnomalyType.cpu_new_proc = codes "cpu_new_process"
type_str AnomalyType.mem_drop = codes "mem_drop"
type_str AnomalyType.mem_pressure = codes "mem_pressure"
type_str AnomalyType.swap_spike = codes "swap_spike"
type_str AnomalyType.nothing = codes "unknown"

abbrev pub type_desc : AnomalyType → Bytes
type_desc AnomalyType.cpu_delta = codes "Process CPU usage jumped significantly from baseline"
type_desc AnomalyType.cpu_new_proc = codes "New process spawned with high initial CPU usage"
type_desc AnomalyType.mem_drop = codes "Available memory dropped suddenly"
type_desc AnomalyType.mem_pressure = codes "System under high memory pressure"
type_desc AnomalyType.swap_spike = codes "Swap usage increased suddenly"
type_desc AnomalyType.nothing = codes "Unknown anomaly type"

abbrev pub scope_str : TriggerScope → Bytes
scope_str TriggerScope.process_group = codes "process_group"
scope_str TriggerScope.parent = codes "parent"
scope_str TriggerScope.system = codes "system"
scope_str TriggerScope.process = codes "per_process"

abbrev pub scope_desc : TriggerScope → Bytes
scope_desc TriggerScope.process_group = codes "Grouped by PGID"
scope_desc TriggerScope.parent = codes "Grouped by PPID"
scope_desc TriggerScope.system = codes "System-wide grouping"
scope_desc TriggerScope.process = codes "Per-process (no grouping)"

-- The parts of the function, each with the calls behind it, `next`.
module _ {F : Type 0} ⦃d : Double F⦄ (granted : ℕ → Bool) where
  abbrev pub mem_calls : AnomalyResult F → (Writer → Result) → Writer → Result
  mem_calls anomaly next = do
    spkt_json_key granted (codes "mem_available_kib")
    spkt_json_uint granted anomaly.mem_available_kib
    spkt_json_key granted (codes "mem_baseline_kib")
    spkt_json_uint granted anomaly.mem_baseline_kib
    spkt_json_key granted (codes "mem_delta_kib")
    spkt_json_int granted anomaly.mem_delta_kib
    spkt_json_key granted (codes "mem_used_pct")
    spkt_json_double granted anomaly.mem_used_pct
    spkt_json_key granted (codes "mem_available_mib")
    spkt_json_uint granted (spkt_kib_to_mib anomaly.mem_available_kib)
    spkt_json_key granted (codes "mem_baseline_mib")
    spkt_json_uint granted (spkt_kib_to_mib anomaly.mem_baseline_kib)
    spkt_json_key granted (codes "mem_delta_mib")
    spkt_json_int granted (anomaly.mem_delta_kib /ℤ 1024)
    next

  abbrev pub swap_calls : AnomalyResult F → (Writer → Result) → Writer → Result
  swap_calls anomaly next = do
    spkt_json_key granted (codes "swap_used_kib")
    spkt_json_uint granted anomaly.swap_used_kib
    spkt_json_key granted (codes "swap_baseline_kib")
    spkt_json_uint granted anomaly.swap_baseline_kib
    spkt_json_key granted (codes "swap_delta_kib")
    spkt_json_int granted anomaly.swap_delta_kib
    spkt_json_key granted (codes "swap_used_mib")
    spkt_json_uint granted (spkt_kib_to_mib anomaly.swap_used_kib)
    spkt_json_key granted (codes "swap_baseline_mib")
    spkt_json_uint granted (spkt_kib_to_mib anomaly.swap_baseline_kib)
    spkt_json_key granted (codes "swap_delta_mib")
    spkt_json_int granted (anomaly.swap_delta_kib /ℤ 1024)
    next

  abbrev pub policy_calls : AnomalyResult F → (Writer → Result) → Writer → Result
  policy_calls anomaly next = do
    spkt_json_key granted (codes "policy")
    spkt_json_begin_object granted
    spkt_json_key granted (codes "scope")
    spkt_json_string granted (some (scope_str anomaly.trigger_scope))
    spkt_json_key granted (codes "scope_key")
    spkt_json_int granted anomaly.scope_key
    spkt_json_key granted (codes "description")
    spkt_json_string granted (some (scope_desc anomaly.trigger_scope))
    spkt_json_end_object granted
    next

  unfoldable pub serialize_anomaly : AnomalyResult F → Writer → Result
  serialize_anomaly anomaly = do
    spkt_json_begin_object granted
    spkt_json_key granted (codes "type")
    spkt_json_string granted (some (type_str anomaly.kind))
    spkt_json_key granted (codes "type_description")
    spkt_json_string granted (some (type_desc anomaly.kind))
    spkt_json_key granted (codes "pid")
    spkt_json_int granted anomaly.spike_pid
    spkt_json_key granted (codes "comm")
    spkt_json_string granted (some anomaly.spike_comm)
    spkt_json_key granted (codes "cpu_pct")
    spkt_json_double granted anomaly.spike_cpu_pct
    spkt_json_key granted (codes "baseline_pct")
    spkt_json_double granted anomaly.spike_baseline_pct
    spkt_json_key granted (codes "delta_pct")
    spkt_json_double granted anomaly.spike_delta
    spkt_json_key granted (codes "is_new_process")
    spkt_json_bool granted anomaly.is_new_process_spike
    mem_calls anomaly (
        swap_calls anomaly (
          policy_calls anomaly (
            spkt_json_key granted (codes "origin_snapshot_index")
            >> spkt_json_int granted anomaly.origin_snapshot_idx
            >> spkt_json_end_object granted)))
