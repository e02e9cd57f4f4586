-- ===== src/Anomaly/Memory/Quiet.antt =====
-- The cooldowns of the two memory detectors.
use spiketrace.Prelude.{
  ℕ, ◌+◌, ◌<◌, ◌≡◌, true, none, List, arith, if◌then◌else◌, Option-cases, inl, inr, inl, inr,
}
use spiketrace.Double.{Double}
use spiketrace.Snapshot.{ProcSample, MemSnapshot}
use spiketrace.Anomaly.Types.{AnomalyConfig, AnomalyResult, AnomalyState, no_result}
use spiketrace.Anomaly.Memory.{
  is_cooling, attribute, top_rss, mem_report, swap_report, evaluate_mem, evaluate_swap,
}

module _ {F : Type 0} ⦃d : Double F⦄ (config : AnomalyConfig F) where
  -- `last` is a time of a report that the cooldown still covers now
  abbrev pub Covers : ℕ → ℕ → Type 0
  Covers last now = (0 < last) × (last < now) × (now < last + config.cooldown_ns)

  Covers-is_cooling : (last now : ℕ) → Covers last now → is_cooling config last now ≡ true
  unfolding is_cooling
  Covers-is_cooling last now c = ground arith

  -- During the cooldown neither detector changes its result or its time.
  pub evaluate_mem-Covers :
      (state : AnomalyState) (mem : MemSnapshot) (samples : List (ProcSample F)) (now : ℕ)
      (out : AnomalyResult F)
      → Covers state.last_mem_trigger_ns now
      → let (state', out') = evaluate_mem config state mem samples now out in
        (out' ≡ out) × (state'.last_mem_trigger_ns ≡ state.last_mem_trigger_ns)
  unfolding evaluate_mem
  evaluate_mem-Covers state mem samples now out c =
      let cooling = Covers-is_cooling state.last_mem_trigger_ns now c in
      (ground arith, ground arith)

  pub evaluate_swap-Covers :
      (state : AnomalyState) (mem : MemSnapshot) (samples : List (ProcSample F)) (now : ℕ)
      (out : AnomalyResult F)
      → Covers state.last_swap_trigger_ns now
      → let (state', out') = evaluate_swap config state mem samples now out in
        (out' ≡ out) × (state'.last_swap_trigger_ns ≡ state.last_swap_trigger_ns)
  unfolding evaluate_swap
  evaluate_swap-Covers state mem samples now out c =
      let cooling = Covers-is_cooling state.last_swap_trigger_ns now c in
      (ground arith, ground arith)

  -- A call sets its time to now if it reports, and else leaves it.
  pub evaluate_mem-trigger :
      (state : AnomalyState) (mem : MemSnapshot) (samples : List (ProcSample F)) (now : ℕ)
      → let (state', out) = evaluate_mem config state mem samples now no_result in
        state'.last_mem_trigger_ns ≡ (if out.has_anomaly then now else state.last_mem_trigger_ns)
  unfolding evaluate_mem mem_report attribute
  evaluate_mem-trigger state mem samples now = elim (Option-cases (top_rss samples 0 none)) [
    | inl nobody ↦ ground arith
    | inr (s, found) ↦ ground arith
  ]

  pub evaluate_swap-trigger :
      (state : AnomalyState) (mem : MemSnapshot) (samples : List (ProcSample F)) (now : ℕ)
      → let (state', out) = evaluate_swap config state mem samples now no_result in
        state'.last_swap_trigger_ns ≡ (if out.has_anomaly then now else state.last_swap_trigger_ns)
  unfolding evaluate_swap swap_report attribute
  evaluate_swap-trigger state mem samples now = elim (Option-cases (top_rss samples 0 none)) [
    | inl nobody ↦ ground arith
    | inr (s, found) ↦ ground arith
  ]
