-- ===== src/Daemon/Settings.antt =====
-- src/spktrace.c: how the settings are loaded, and what the loop takes of them.
use spiketrace.Prelude.{Bool, false, ◌||◌, Option, none, some, if◌then◌else◌, Bytes}
use spiketrace.Status.{Status, is_ok}
use spiketrace.Double.{Double}
use spiketrace.Config.Types.{Config}
use spiketrace.Config.Defaults.{config_init_defaults}
use spiketrace.Config.Load.{Files, config_load}
use spiketrace.Config.Validate.{validate}
use spiketrace.Anomaly.Types.{AnomalyType, AnomalyConfig, AnomalyResult}

module _ {F : Type 0} ⦃d : Double F⦄ where
  abbrev pub validated : Bytes → Option (Config F) → Option (Status × Config F)
  validated dir none = none
  validated dir (some config) = some (validate dir config)

  -- `dir` is the directory of the build; `none` stands for a load that would not end
  unfoldable pub load_config : Bytes → Files → Option (Status × Config F)
  load_config dir files = validated dir (config_load dir files none)

  -- the settings that are used for `fallback` if the new ones are refused
  abbrev pub accepted_or : Config F → Option (Status × Config F) → Config F
  accepted_or fallback none = fallback
  accepted_or fallback (some (status, config)) = if is_ok status then config else fallback

  unfoldable pub reload_config : Bytes → Files → Config F → Config F
  reload_config dir files active_config = accepted_or active_config (load_config dir files)

  -- the first load of `main`
  unfoldable pub initial_config : Bytes → Files → Config F
  initial_config dir files = accepted_or (config_init_defaults dir) (load_config dir files)

  unfoldable pub config_to_anomaly_config : Config F → AnomalyConfig F
  config_to_anomaly_config config = record {
    cpu_delta_threshold_pct = config.cpu_delta_threshold_pct;
    new_process_threshold_pct = config.new_process_threshold_pct;
    mem_drop_threshold_kib = config.mem_drop_threshold_kib;
    mem_pressure_threshold_pct = config.mem_pressure_threshold_pct;
    swap_spike_threshold_kib = config.swap_spike_threshold_kib;
    cooldown_ns = d.to_ℕ (d.mul config.cooldown_seconds (d.literal 1000000000 1));
    memory_baseline_alpha = config.memory_baseline_alpha;
    trigger_scope = config.trigger_scope;
    aggregate_related_processes = config.aggregate_related_processes;
  }

  -- whether the detection of that type is enabled
  unfoldable pub should_report : Config F → AnomalyType → Bool
  should_report config AnomalyType.nothing = false
  should_report config AnomalyType.cpu_delta = config.enable_cpu_detection
  should_report config AnomalyType.cpu_new_proc = config.enable_cpu_detection
  should_report config AnomalyType.mem_drop = config.enable_memory_detection
  should_report config AnomalyType.mem_pressure = config.enable_memory_detection
  should_report config AnomalyType.swap_spike = config.enable_swap_detection

  abbrev pub some_detection : Config F → Bool
  some_detection config =
      config.enable_cpu_detection || config.enable_memory_detection || config.enable_swap_detection

  unfoldable pub filtered : Config F → AnomalyResult F → AnomalyResult F
  filtered config result =
      if result.has_anomaly
      then (if should_report config result.kind
          then result
          else record result { has_anomaly = false })
      else result
