-- ===== src/Anomaly/Evaluate/Priority.antt =====
-- The three detectors inside `anomaly_evaluate`: none sees another, and the first report wins.
use spiketrace.Prelude.{ℕ, ◌≡◌, refl, ◌∙◌, Option, none, some, List, [], ◌∷◌, if◌then◌else◌}
use spiketrace.Double.{Double}
use spiketrace.Snapshot.{ProcSample, MemSnapshot}
use spiketrace.Anomaly.Types.{AnomalyConfig, AnomalyResult, AnomalyState, no_result}
use spiketrace.Anomaly.Cpu.Frame.{CpuFrame, evaluate_cpu-frame}
use spiketrace.Anomaly.Memory.Local.{mem_view, swap_view, evaluate_mem-local, evaluate_swap-local}
use spiketrace.Anomaly.Memory.Baseline.{evaluate_mem-frame, evaluate_swap-frame}
use spiketrace.Anomaly.Evaluate.{cpu_step, mem_step, swap_step, evaluate}

module _ {F : Type 0} where
  -- the first report of the three, or the empty result
  abbrev pub first_report : AnomalyResult F → AnomalyResult F → AnomalyResult F → AnomalyResult F
  first_report cpu mem swap =
      if cpu.has_anomaly
      then cpu
      else if mem.has_anomaly
      then mem
      else if swap.has_anomaly
      then swap
      else cpu

module _ {F : Type 0} ⦃d : Double F⦄ (config : AnomalyConfig F) where
  pub cpu_step-frame :
      (state : AnomalyState) (samples : List (ProcSample F)) (now : ℕ)
      → CpuFrame config now state (cpu_step config state samples now)
  unfolding cpu_step
  cpu_step-frame state [] now = (refl, refl, refl, refl)
  cpu_step-frame state (s ∷ samples) now = evaluate_cpu-frame config now state (s ∷ samples)

  mem_step-local :
      (s s' : AnomalyState) (mem : Option MemSnapshot) (samples : List (ProcSample F)) (now : ℕ)
      → mem_view s ≡ mem_view s'
      → let (t, out) = mem_step config s mem samples now in
        let (t', out') = mem_step config s' mem samples now in
        (mem_view t ≡ mem_view t') × (out ≡ out')
  unfolding mem_step
  mem_step-local s s' none samples now e = (e, refl)
  mem_step-local s s' (some mem) samples now e = evaluate_mem-local config s s' mem samples now e

  swap_step-local :
      (s s' : AnomalyState) (mem : Option MemSnapshot) (samples : List (ProcSample F)) (now : ℕ)
      → swap_view s ≡ swap_view s'
      → let (t, out) = swap_step config s mem samples now in
        let (t', out') = swap_step config s' mem samples now in
        (swap_view t ≡ swap_view t') × (out ≡ out')
  unfolding swap_step
  swap_step-local s s' none samples now e = (e, refl)
  swap_step-local s s' (some mem) samples now e = evaluate_swap-local config s s' mem samples now e

  mem_step-frame :
      (s : AnomalyState) (mem : Option MemSnapshot) (samples : List (ProcSample F)) (now : ℕ)
      → let t = (mem_step config s mem samples now).0 in
        (swap_view t ≡ swap_view s) × (t.cooldowns ≡ s.cooldowns)
  unfolding mem_step
  mem_step-frame s none samples now = (refl, refl)
  mem_step-frame s (some mem) samples now =
      let (base, cool, swap, last) = evaluate_mem-frame config s mem samples now no_result in
      (cc, cool)

  swap_step-frame :
      (s : AnomalyState) (mem : Option MemSnapshot) (samples : List (ProcSample F)) (now : ℕ)
      → let t = (swap_step config s mem samples now).0 in
        (mem_view t ≡ mem_view s) × (t.cooldowns ≡ s.cooldowns)
  unfolding swap_step
  swap_step-frame s none samples now = (refl, refl)
  swap_step-frame s (some mem) samples now =
      let (base, cool, swap, last) = evaluate_swap-frame config s mem samples now no_result in
      (cc, cool)

  -- `anomaly_evaluate` runs the three detectors independently: each updates its part of the state
  -- and finds its result as if it were called alone on the state before the round. The result is
  -- the CPU's if that is a report, else the memory's, else the swap's.
  pub evaluate_independent :
      (state : AnomalyState) (samples : List (ProcSample F)) (mem : Option MemSnapshot) (now : ℕ)
      → let (state', out) = evaluate config state samples mem now in
        let (cpu_state, cpu_out) = cpu_step config state samples now in
        let (mem_state, mem_out) = mem_step config state mem samples now in
        let (swap_state, swap_out) = swap_step config state mem samples now in
        (state'.cooldowns ≡ cpu_state.cooldowns)
        × (mem_view state' ≡ mem_view mem_state)
        × (swap_view state' ≡ swap_view swap_state)
        × (out ≡ first_report cpu_out mem_out swap_out)
  unfolding evaluate
  evaluate_independent state samples mem now =
      let (state₁, cpu_out) = cpu_step config state samples now in
      let (state₂, mem_out) = mem_step config state₁ mem samples now in
      let (m, s, _, _) = cpu_step-frame state samples now in
      let (s', c') = mem_step-frame state₁ mem samples now in
      let (m'', c'') = swap_step-frame state₂ mem samples now in
      let (mem_same, mem_out_same) = mem_step-local state₁ state mem samples now m in
      let (swap_same, swap_out_same) = swap_step-local state₂ state mem samples now (s' ∙ s) in
      (c'' ∙ c', m'' ∙ mem_same, swap_same, rw mem_out_same (rw swap_out_same refl))
