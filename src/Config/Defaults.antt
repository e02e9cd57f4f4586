-- ===== src/Config/Defaults.antt =====
-- `config_init_defaults` of src/config.c.
use spiketrace.Prelude.{ℕ, ◌*◌, true, false, Bytes, take}
use spiketrace.Double.{Double}
use spiketrace.Config.Types.{Config, TriggerScope, CleanupPolicy}

-- `CONFIG_MAX_PATH_LEN`
abbrev pub max_path_len : ℕ
max_path_len = 256

-- `dir` is DEFAULT_OUTPUT_DIRECTORY, which the build sets
abbrev pub config_init_defaults : {F : Type 0} ⦃d : Double F⦄ → Bytes → Config F
config_init_defaults ⦃d⦄ dir = record {
  cpu_delta_threshold_pct = d.literal 10 1;
  new_process_threshold_pct = d.literal 5 1;
  mem_drop_threshold_kib = 512 * 1024;
  mem_pressure_threshold_pct = d.literal 90 1;
  swap_spike_threshold_kib = 256 * 1024;
  cooldown_seconds = d.literal 5 1;
  sampling_interval_seconds = d.literal 1 1;
  ring_buffer_capacity = 60;
  context_snapshots_per_dump = 10;
  max_processes_tracked = 512;
  top_processes_stored = 10;
  output_directory = take 255 dir;
  enable_cpu_detection = true;
  enable_memory_detection = true;
  enable_swap_detection = true;
  aggregate_related_processes = false;
  memory_baseline_alpha = d.literal 2 10;
  process_baseline_alpha = d.literal 3 10;
  trigger_scope = TriggerScope.process;
  enable_auto_cleanup = false;
  cleanup_policy = CleanupPolicy.disabled;
  log_max_age_days = 30;
  log_max_count = 100;
  log_max_total_size_mib = 512;
  cleanup_interval_minutes = 60;
  loaded = false;
}
