-- ===== src/Anomaly/Evaluate.antt =====
-- `anomaly_evaluate` and the functions around it in src/anomaly_detector.c.
pub mod Priority
pub mod Quiet
pub mod Rounds
use spiketrace.Prelude.{ℕ, Bool, true, false, Option, none, some, List, [], ◌∷◌, if◌then◌else◌}
use spiketrace.Double.{Double}
use spiketrace.Config.Types.{TriggerScope}
use spiketrace.Snapshot.{ProcSample, MemSnapshot}
use spiketrace.Anomaly.Types.{AnomalyConfig, AnomalyResult, AnomalyState, no_result}
use spiketrace.Anomaly.Cpu.{evaluate_cpu}
use spiketrace.Anomaly.Memory.{evaluate_mem, evaluate_swap}

-- `anomaly_default_config`
abbrev pub anomaly_default_config : {F : Type 0} ⦃d : Double F⦄ → AnomalyConfig F
anomaly_default_config ⦃d⦄ = record {
  cpu_delta_threshold_pct = d.literal 10 1;
  new_process_threshold_pct = d.literal 5 1;
  mem_drop_threshold_kib = 524288;
  mem_pressure_threshold_pct = d.literal 90 1;
  swap_spike_threshold_kib = 262144;
  cooldown_ns = 5000000000;
  memory_baseline_alpha = d.literal 2 10;
  trigger_scope = TriggerScope.process;
  aggregate_related_processes = false;
}

module _ {F : Type 0} ⦃d : Double F⦄ (config : AnomalyConfig F) where
  -- the guarded calls; an empty list covers a null pointer and a count of 0
  unfoldable pub cpu_step : AnomalyState → List (ProcSample F) → ℕ → AnomalyState × AnomalyResult F
  cpu_step state [] current_ns = (state, no_result)
  cpu_step state (s ∷ samples) current_ns =
      evaluate_cpu config current_ns state (s ∷ samples) no_result

  unfoldable pub mem_step :
      AnomalyState → Option MemSnapshot → List (ProcSample F) → ℕ → AnomalyState × AnomalyResult F
  mem_step state none samples current_ns = (state, no_result)
  mem_step state (some mem) samples current_ns =
      evaluate_mem config state mem samples current_ns no_result

  unfoldable pub swap_step :
      AnomalyState → Option MemSnapshot → List (ProcSample F) → ℕ → AnomalyState × AnomalyResult F
  swap_step state none samples current_ns = (state, no_result)
  swap_step state (some mem) samples current_ns =
      evaluate_swap config state mem samples current_ns no_result

  -- the part of `anomaly_evaluate` behind the null checks
  unfoldable pub evaluate :
      AnomalyState → List (ProcSample F) → Option MemSnapshot → ℕ → AnomalyState × AnomalyResult F
  evaluate state samples mem current_ns =
      let (state₁, cpu_result) = cpu_step state samples current_ns in
      let (state₂, mem_result) = mem_step state₁ mem samples current_ns in
      let (state₃, swap_result) = swap_step state₂ mem samples current_ns in
      (
        state₃,
        if cpu_result.has_anomaly
            then cpu_result
            else if mem_result.has_anomaly
            then mem_result
            else if swap_result.has_anomaly
            then swap_result
            else cpu_result,
      )

-- a null configuration or state reports nothing
unfoldable pub anomaly_evaluate :
    {F : Type 0} ⦃d : Double F⦄
    → Option (AnomalyConfig F)
    → Option AnomalyState
    → List (ProcSample F)
    → Option MemSnapshot
    → ℕ
    → Option AnomalyState × AnomalyResult F
anomaly_evaluate none state samples mem current_ns = (state, no_result)
anomaly_evaluate (some config) none samples mem current_ns = (none, no_result)
anomaly_evaluate (some config) (some state) samples mem current_ns =
    let (state', out) = evaluate config state samples mem current_ns in (some state', out)

-- `anomaly_should_dump`
unfoldable pub anomaly_should_dump : {F : Type 0} → Option (AnomalyResult F) → Bool
anomaly_should_dump none = false
anomaly_should_dump (some result) = result.has_anomaly
