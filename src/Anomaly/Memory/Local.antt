-- ===== src/Anomaly/Memory/Local.antt =====
-- Each memory detector depends on its own part of the state alone.
use spiketrace.Prelude.{ℕ, ◌≡◌, Bool, true, false, none, List, arith, Option-cases, inl, inr}
use spiketrace.Double.{Double}
use spiketrace.Snapshot.{ProcSample, MemSnapshot}
use spiketrace.Anomaly.Types.{AnomalyType, AnomalyConfig, AnomalyState, no_result}
use spiketrace.Anomaly.Memory.{
  attribute, top_rss, mem_report, swap_report, evaluate_mem, evaluate_swap,
}

-- what each memory detector keeps: baseline, whether it is initialised, time of the last report
abbrev pub MemView : Type 0
MemView = ℕ × Bool × ℕ

abbrev pub mem_view : AnomalyState → MemView
mem_view s = (s.mem_baseline_kib, s.mem_baseline_initialized, s.last_mem_trigger_ns)

abbrev pub swap_view : AnomalyState → MemView
swap_view s = (s.swap_baseline_kib, s.swap_baseline_initialized, s.last_swap_trigger_ns)

abbrev pub is_mem_kind : AnomalyType → Bool
is_mem_kind AnomalyType.mem_drop = true
is_mem_kind AnomalyType.mem_pressure = true
is_mem_kind _ = false

abbrev pub is_swap_kind : AnomalyType → Bool
is_swap_kind AnomalyType.swap_spike = true
is_swap_kind _ = false

module _ {F : Type 0} ⦃d : Double F⦄ (config : AnomalyConfig F) where
  pub evaluate_mem-local :
      (s s' : AnomalyState) (mem : MemSnapshot) (samples : List (ProcSample F)) (now : ℕ)
      → mem_view s ≡ mem_view s'
      → let (t, out) = evaluate_mem config s mem samples now no_result in
        let (t', out') = evaluate_mem config s' mem samples now no_result in
        (mem_view t ≡ mem_view t') × (out ≡ out')
  unfolding evaluate_mem
  evaluate_mem-local s s' mem samples now e = (ground arith, ground arith)

  pub evaluate_swap-local :
      (s s' : AnomalyState) (mem : MemSnapshot) (samples : List (ProcSample F)) (now : ℕ)
      → swap_view s ≡ swap_view s'
      → let (t, out) = evaluate_swap config s mem samples now no_result in
        let (t', out') = evaluate_swap config s' mem samples now no_result in
        (swap_view t ≡ swap_view t') × (out ≡ out')
  unfolding evaluate_swap
  evaluate_swap-local s s' mem samples now e = (ground arith, ground arith)

  -- A detector's result has a kind of its own exactly if it is a report.
  pub evaluate_mem-kind :
      (s : AnomalyState) (mem : MemSnapshot) (samples : List (ProcSample F)) (now : ℕ)
      → let out = (evaluate_mem config s mem samples now no_result).1 in
        (is_mem_kind out.kind ≡ out.has_anomaly) × (is_swap_kind out.kind ≡ false)
  unfolding evaluate_mem mem_report attribute
  evaluate_mem-kind s mem samples now = elim (Option-cases (top_rss samples 0 none)) [
    | inl nobody ↦ (ground arith, ground arith)
    | inr (t, found) ↦ (ground arith, ground arith)
  ]

  pub evaluate_swap-kind :
      (s : AnomalyState) (mem : MemSnapshot) (samples : List (ProcSample F)) (now : ℕ)
      → let out = (evaluate_swap config s mem samples now no_result).1 in
        (is_mem_kind out.kind ≡ false) × (is_swap_kind out.kind ≡ out.has_anomaly)
  unfolding evaluate_swap swap_report attribute
  evaluate_swap-kind s mem samples now = elim (Option-cases (top_rss samples 0 none)) [
    | inl nobody ↦ (ground arith, ground arith)
    | inr (t, found) ↦ (ground arith, ground arith)
  ]
