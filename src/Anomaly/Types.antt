-- ===== src/Anomaly/Types.antt =====
-- include/anomaly_detector.h: the detector's configuration, result and state. The table of
-- cooldowns is the used prefix of its array, so its count is the length.
use spiketrace.Prelude.{ℕ, Bool, false, List, [], Bytes, take}
use spiketrace.Prelude.Int.{ℤ, pos}
use spiketrace.Double.{Double, nought}
use spiketrace.Config.Types.{TriggerScope}
use spiketrace.Snapshot.{ProcSample}

-- `anomaly_type_t`, without the prefix ANOMALY_TYPE_
pub data AnomalyType : Type 0 where
  nothing cpu_delta cpu_new_proc mem_drop mem_pressure swap_spike : AnomalyType

-- `anomaly_config_t`
pub record AnomalyConfig (F : Type 0) : Type 0 where
  pub cpu_delta_threshold_pct : F
  pub new_process_threshold_pct : F
  pub mem_drop_threshold_kib : ℕ
  pub mem_pressure_threshold_pct : F
  pub swap_spike_threshold_kib : ℕ
  pub cooldown_ns : ℕ
  pub memory_baseline_alpha : F
  pub trigger_scope : TriggerScope
  pub aggregate_related_processes : Bool

-- `anomaly_result_t`
pub record AnomalyResult (F : Type 0) : Type 0 where
  pub has_anomaly : Bool
  pub kind : AnomalyType
  pub spike_pid : ℤ
  pub spike_comm : Bytes
  pub spike_cpu_pct : F
  pub spike_baseline_pct : F
  pub spike_delta : F
  pub is_new_process_spike : Bool
  pub mem_available_kib : ℕ
  pub mem_baseline_kib : ℕ
  pub mem_delta_kib : ℤ
  pub mem_used_pct : F
  pub swap_used_kib : ℕ
  pub swap_baseline_kib : ℕ
  pub swap_delta_kib : ℤ
  pub trigger_scope : TriggerScope
  pub scope_key : ℤ
  pub origin_snapshot_idx : ℤ

-- `cooldown_entry_t`
pub record CooldownEntry : Type 0 where
  pub scope_key : ℤ
  pub last_trigger_ns : ℕ

abbrev pub Table : Type 0
Table = List CooldownEntry

-- `anomaly_state_t`
pub record AnomalyState : Type 0 where
  pub cooldowns : Table
  pub mem_baseline_kib : ℕ
  pub mem_baseline_initialized : Bool
  pub last_mem_trigger_ns : ℕ
  pub swap_baseline_kib : ℕ
  pub swap_baseline_initialized : Bool
  pub last_swap_trigger_ns : ℕ

-- `anomaly_result_t r = {0}`
abbrev pub no_result : {F : Type 0} ⦃d : Double F⦄ → AnomalyResult F
no_result = record {
  has_anomaly = false;
  kind = AnomalyType.nothing;
  spike_pid = pos 0;
  spike_comm = [];
  spike_cpu_pct = nought;
  spike_baseline_pct = nought;
  spike_delta = nought;
  is_new_process_spike = false;
  mem_available_kib = 0;
  mem_baseline_kib = 0;
  mem_delta_kib = pos 0;
  mem_used_pct = nought;
  swap_used_kib = 0;
  swap_baseline_kib = 0;
  swap_delta_kib = pos 0;
  trigger_scope = TriggerScope.process;
  scope_key = pos 0;
  origin_snapshot_idx = pos 0;
}

-- `anomaly_state_init`
abbrev pub state_init : AnomalyState
state_init = record {
  cooldowns = [];
  mem_baseline_kib = 0;
  mem_baseline_initialized = false;
  last_mem_trigger_ns = 0;
  swap_baseline_kib = 0;
  swap_baseline_initialized = false;
  last_swap_trigger_ns = 0;
}

unfoldable pub compute_scope_key : {F : Type 0} → ProcSample F → TriggerScope → ℤ
compute_scope_key s TriggerScope.process_group = s.pgid
compute_scope_key s TriggerScope.parent = s.ppid
compute_scope_key s TriggerScope.system = pos 0
compute_scope_key s TriggerScope.process = s.pid

-- `spike_comm` has room for 15 bytes and the NUL
abbrev pub copy_comm : Bytes → Bytes
copy_comm c = take 15 c
