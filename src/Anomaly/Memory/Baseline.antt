-- ===== src/Anomaly/Memory/Baseline.antt =====
-- The baselines, and what else the two memory detectors leave alone.
use spiketrace.Prelude.{ℕ, ◌≡◌, Bool, true, List, arith, ◌==◌, if◌then◌else◌}
use spiketrace.Double.{Double}
use spiketrace.Snapshot.{ProcSample, MemSnapshot}
use spiketrace.Anomaly.Types.{AnomalyConfig, AnomalyResult, AnomalyState}
use spiketrace.Anomaly.Memory.{ema, swap_used_of, evaluate_mem, evaluate_swap}

-- A baseline as the detector keeps it: a value, and whether it is initialised.
abbrev pub Baseline : Type 0
Baseline = ℕ × Bool

abbrev pub mem_baseline : AnomalyState → Baseline
mem_baseline state = (state.mem_baseline_kib, state.mem_baseline_initialized)

abbrev pub swap_baseline : AnomalyState → Baseline
swap_baseline state = (state.swap_baseline_kib, state.swap_baseline_initialized)

module _ {F : Type 0} ⦃d : Double F⦄ (config : AnomalyConfig F) where
  -- the specification: the first value, and from there the moving average; a total of 0 is skipped
  abbrev pub follow : ℕ → ℕ → Baseline → Baseline
  follow total x b = if total == 0 then b else (if b.1 then ema config x b.0 else x, true)

  -- What `evaluate_mem` changes: the memory baseline, as the specification says, and the time of
  -- the last memory report.
  pub evaluate_mem-frame :
      (state : AnomalyState) (mem : MemSnapshot) (samples : List (ProcSample F)) (now : ℕ)
      (out : AnomalyResult F)
      → let state' = (evaluate_mem config state mem samples now out).0 in
        (mem_baseline state' ≡ follow mem.total_ram_kib mem.available_ram_kib (mem_baseline state))
        × (state'.cooldowns ≡ state.cooldowns)
        × (swap_baseline state' ≡ swap_baseline state)
        × (state'.last_swap_trigger_ns ≡ state.last_swap_trigger_ns)
  unfolding evaluate_mem
  evaluate_mem-frame state mem samples now out =
      (ground arith, ground arith, ground arith, ground arith)

  pub evaluate_swap-frame :
      (state : AnomalyState) (mem : MemSnapshot) (samples : List (ProcSample F)) (now : ℕ)
      (out : AnomalyResult F)
      → let state' = (evaluate_swap config state mem samples now out).0 in
        (swap_baseline state'
          ≡ follow mem.swap_total_ram_kib (swap_used_of config mem) (swap_baseline state))
        × (state'.cooldowns ≡ state.cooldowns)
        × (mem_baseline state' ≡ mem_baseline state)
        × (state'.last_mem_trigger_ns ≡ state.last_mem_trigger_ns)
  unfolding evaluate_swap
  evaluate_swap-frame state mem samples now out =
      (ground arith, ground arith, ground arith, ground arith)
