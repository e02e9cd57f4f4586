-- ===== src/Config/Types.antt =====
-- include/config.h: the settings and the two enumerations that they use.
use spiketrace.Prelude.{ℕ, Bool, Bytes}

-- `spkt_trigger_scope_t`
pub data TriggerScope : Type 0 where
  process process_group parent system : TriggerScope

-- `log_cleanup_policy_t`
pub data CleanupPolicy : Type 0 where
  disabled by_age by_count by_size : CleanupPolicy

-- `spkt_config_t`
pub record Config (F : Type 0) : Type 0 where
  pub cpu_delta_threshold_pct : F
  pub new_process_threshold_pct : F
  pub mem_drop_threshold_kib : ℕ
  pub mem_pressure_threshold_pct : F
  pub swap_spike_threshold_kib : ℕ
  pub cooldown_seconds : F
  pub sampling_interval_seconds : F
  pub ring_buffer_capacity : ℕ
  pub context_snapshots_per_dump : ℕ
  pub max_processes_tracked : ℕ
  pub top_processes_stored : ℕ
  pub output_directory : Bytes
  pub enable_cpu_detection : Bool
  pub enable_memory_detection : Bool
  pub enable_swap_detection : Bool
  pub aggregate_related_processes : Bool
  pub memory_baseline_alpha : F
  pub process_baseline_alpha : F
  pub trigger_scope : TriggerScope
  pub enable_auto_cleanup : Bool
  pub cleanup_policy : CleanupPolicy
  pub log_max_age_days : ℕ
  pub log_max_count : ℕ
  pub log_max_total_size_mib : ℕ
  pub cleanup_interval_minutes : ℕ
  pub loaded : Bool
