-- ===== src/Config/Validate.antt =====
-- `config_validate` of src/config.c, in the order of its checks. The messages on stderr are left
-- out, and so is `had_warnings`, which the code does not use.
pub mod Bounds
pub mod Soundness
pub mod Fixes
use spiketrace.Prelude.{
  ℕ, ◌*◌, Bool, true, false, not, ◌&&◌, ◌||◌, Option, none, some, [], ◌∷◌, ltb, if◌then◌else◌,
  Bytes, take,
}
use spiketrace.Status.{Status, ok, err_null_pointer, err_invalid_param}
use spiketrace.Double.{Double, is_nan}
use spiketrace.Config.Types.{Config}
use spiketrace.Config.Defaults.{config_init_defaults}
use spiketrace.Config.Path.{is_safe_absolute_path}

-- A setting outside its bounds becomes the default.
abbrev pub reset_ℕ : ℕ → ℕ → ℕ → ℕ → ℕ
reset_ℕ low high default x = if ltb x low || ltb high x then default else x

-- an empty directory is not checked
abbrev pub safe_directory : Bytes → Bytes → Bytes
safe_directory dir [] = []
safe_directory dir (b ∷ path) = if is_safe_absolute_path (b ∷ path) then b ∷ path else take 255 dir

module _ {F : Type 0} ⦃d : Double F⦄ where
  abbrev pub reset : F → F → F → F → F
  reset low high default x = if d.lt x low || d.lt high x then default else x

  abbrev pub validate_detection : Config F → Config F
  validate_detection c = record c {
    cpu_delta_threshold_pct =
        reset (d.literal 1 10) (d.literal 100 1) (d.literal 10 1) c.cpu_delta_threshold_pct;
    new_process_threshold_pct =
        reset (d.literal 1 10) (d.literal 100 1) (d.literal 5 1) c.new_process_threshold_pct;
    mem_drop_threshold_kib =
        reset_ℕ (1 * 1024) (1024 * 1024 * 1024) (512 * 1024) c.mem_drop_threshold_kib;
    mem_pressure_threshold_pct =
        reset (d.literal 50 1) (d.literal 100 1) (d.literal 90 1) c.mem_pressure_threshold_pct;
    swap_spike_threshold_kib =
        reset_ℕ (1 * 1024) (1024 * 1024 * 1024) (256 * 1024) c.swap_spike_threshold_kib;
    cooldown_seconds = reset (d.literal 1 10) (d.literal 300 1) (d.literal 5 1) c.cooldown_seconds;
  }

  -- the context is checked against its bounds, then against the capacity as it is by then
  abbrev pub validate_sampling : Config F → Config F
  validate_sampling c =
      let capacity = reset_ℕ 10 600 60 c.ring_buffer_capacity in
      let context = reset_ℕ 1 60 10 c.context_snapshots_per_dump in
      record c {
        sampling_interval_seconds =
            reset (d.literal 1 10) (d.literal 10 1) (d.literal 1 1) c.sampling_interval_seconds;
        ring_buffer_capacity = capacity;
        context_snapshots_per_dump = if ltb capacity context then capacity else context;
      }

  abbrev pub validate_processes : Config F → Config F
  validate_processes c =
      let tracked = reset_ℕ 10 1024 512 c.max_processes_tracked in
      let top = reset_ℕ 1 50 10 c.top_processes_stored in
      record c {
        max_processes_tracked = tracked;
        top_processes_stored = if ltb tracked top then tracked else top;
      }

  abbrev pub validate_output : Bytes → Config F → Config F
  validate_output dir c = record c { output_directory = safe_directory dir c.output_directory }

  abbrev pub no_detection : Config F → Bool
  no_detection c =
      not c.enable_cpu_detection && not c.enable_memory_detection && not c.enable_swap_detection

  abbrev pub validate_features : Config F → Config F
  validate_features c = record c {
    enable_cpu_detection = no_detection c || c.enable_cpu_detection;
    enable_memory_detection = no_detection c || c.enable_memory_detection;
    enable_swap_detection = no_detection c || c.enable_swap_detection;
  }

  abbrev pub validate_tuning : Config F → Config F
  validate_tuning c = record c {
    memory_baseline_alpha =
        reset (d.literal 1 100) (d.literal 9 10) (d.literal 2 10) c.memory_baseline_alpha;
    process_baseline_alpha =
        reset (d.literal 1 100) (d.literal 9 10) (d.literal 3 10) c.process_baseline_alpha;
  }

  abbrev pub validate_logs : Config F → Config F
  validate_logs c = record c {
    log_max_age_days = reset_ℕ 1 365 30 c.log_max_age_days;
    log_max_count = reset_ℕ 1 10000 100 c.log_max_count;
    log_max_total_size_mib = reset_ℕ 1 (100 * 1024) 512 c.log_max_total_size_mib;
    cleanup_interval_minutes = reset_ℕ 1 (24 * 60) 60 c.cleanup_interval_minutes;
  }

  abbrev pub has_nan : Config F → Bool
  has_nan c =
      is_nan c.cpu_delta_threshold_pct
      || is_nan c.new_process_threshold_pct
      || is_nan c.mem_pressure_threshold_pct
      || is_nan c.cooldown_seconds
      || is_nan c.sampling_interval_seconds
      || is_nan c.memory_baseline_alpha
      || is_nan c.process_baseline_alpha

  abbrev pub corrected : Bytes → Config F → Config F
  corrected dir c = validate_logs (
      validate_tuning (
        validate_features
          (validate_output dir (validate_processes (validate_sampling (validate_detection c))))))

  unfoldable pub validate : Bytes → Config F → Status × Config F
  validate dir c =
      let c' = corrected dir c in
      if has_nan c' then (err_invalid_param, config_init_defaults dir) else (ok, c')

  unfoldable pub config_validate : Bytes → Option (Config F) → Status × Option (Config F)
  config_validate dir none = (err_null_pointer, none)
  config_validate dir (some c) = let (status, c') = validate dir c in (status, some c')
