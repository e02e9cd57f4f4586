-- ===== src/Anomaly/Evaluate/Quiet.antt =====
-- The cooldowns of the memory and swap detectors, over the rounds of `anomaly_evaluate`.
use spiketrace.Prelude.{
  ℕ, ◌+◌, ◌<◌, ◌≡◌, refl, sym, ◌∙◌, ap, true, false, Option, none, some, List, [], ◌∷◌, arith, All,
  Bool-cases, inl, inr,
}
use spiketrace.Double.{Double}
use spiketrace.Snapshot.{ProcSample, MemSnapshot}
use spiketrace.Anomaly.Types.{AnomalyConfig, AnomalyResult, AnomalyState, no_result}
use spiketrace.Anomaly.Memory.Local.{
  MemView, is_mem_kind, is_swap_kind, evaluate_mem-kind, evaluate_swap-kind,
}
use spiketrace.Anomaly.Memory.Quiet.{
  Covers, evaluate_mem-trigger, evaluate_swap-trigger, evaluate_mem-Covers, evaluate_swap-Covers,
}
use spiketrace.Anomaly.Evaluate.{cpu_step, mem_step, swap_step}
use spiketrace.Anomaly.Evaluate.Priority.{cpu_step-frame, first_report, evaluate_independent}
use spiketrace.Anomaly.Evaluate.Rounds.{Round, evaluate_round, results}

module _ {F : Type 0} where
  -- the kind of the result is that of a detector's report
  mem_kind-first_report :
      (cpu mem swap : AnomalyResult F)
      → is_mem_kind cpu.kind ≡ false
      → is_mem_kind mem.kind ≡ mem.has_anomaly
      → is_mem_kind swap.kind ≡ false
      → is_mem_kind (first_report cpu mem swap).kind ≡ true
      → mem.has_anomaly ≡ true
  mem_kind-first_report cpu mem swap a b c h = ground arith

  swap_kind-first_report :
      (cpu mem swap : AnomalyResult F)
      → is_swap_kind cpu.kind ≡ false
      → is_swap_kind mem.kind ≡ false
      → is_swap_kind swap.kind ≡ swap.has_anomaly
      → is_swap_kind (first_report cpu mem swap).kind ≡ true
      → swap.has_anomaly ≡ true
  swap_kind-first_report cpu mem swap a b c h = ground arith

module _ {F : Type 0} ⦃d : Double F⦄ (config : AnomalyConfig F) where
  abbrev pub IsSoon : ℕ → Round F → Type 0
  IsSoon t r = (t < r.now) × (r.now < t + config.cooldown_ns)

  -- the result of a step that is a report sets the step's time
  mem_step-trigger :
      (state : AnomalyState) (mem : Option MemSnapshot) (samples : List (ProcSample F)) (now : ℕ)
      → let (state', out) = mem_step config state mem samples now in
        (out.has_anomaly ≡ true → state'.last_mem_trigger_ns ≡ now)
        × (is_mem_kind out.kind ≡ out.has_anomaly)
        × (is_swap_kind out.kind ≡ false)
  unfolding mem_step
  mem_step-trigger state none samples now = (λ h. absurd (ground arith), refl, refl)
  mem_step-trigger state (some mem) samples now =
      let (k, k') = evaluate_mem-kind config state mem samples now in
      (λ h. ground (arith, evaluate_mem-trigger config state mem samples now), k, k')

  swap_step-trigger :
      (state : AnomalyState) (mem : Option MemSnapshot) (samples : List (ProcSample F)) (now : ℕ)
      → let (state', out) = swap_step config state mem samples now in
        (out.has_anomaly ≡ true → state'.last_swap_trigger_ns ≡ now)
        × (is_mem_kind out.kind ≡ false)
        × (is_swap_kind out.kind ≡ out.has_anomaly)
  unfolding swap_step
  swap_step-trigger state none samples now = (λ h. absurd (ground arith), refl, refl)
  swap_step-trigger state (some mem) samples now =
      let (k, k') = evaluate_swap-kind config state mem samples now in
      (λ h. ground (arith, evaluate_swap-trigger config state mem samples now), k, k')

  mem_step-Covers :
      (state : AnomalyState) (mem : Option MemSnapshot) (samples : List (ProcSample F)) (now : ℕ)
      → Covers config state.last_mem_trigger_ns now
      → let (state', out) = mem_step config state mem samples now in
        (out ≡ no_result) × (state'.last_mem_trigger_ns ≡ state.last_mem_trigger_ns)
  unfolding mem_step
  mem_step-Covers state none samples now c = (refl, refl)
  mem_step-Covers state (some mem) samples now c =
      evaluate_mem-Covers config state mem samples now no_result c

  swap_step-Covers :
      (state : AnomalyState) (mem : Option MemSnapshot) (samples : List (ProcSample F)) (now : ℕ)
      → Covers config state.last_swap_trigger_ns now
      → let (state', out) = swap_step config state mem samples now in
        (out ≡ no_result) × (state'.last_swap_trigger_ns ≡ state.last_swap_trigger_ns)
  unfolding swap_step
  swap_step-Covers state none samples now c = (refl, refl)
  swap_step-Covers state (some mem) samples now c =
      evaluate_swap-Covers config state mem samples now no_result c

  -- One round: such a report sets the time; a covered round makes none and keeps the time.
  mem-round :
      (state : AnomalyState) (r : Round F)
      → let (state', out) = evaluate_round config state r in
        (is_mem_kind out.kind ≡ true → state'.last_mem_trigger_ns ≡ r.now)
        × (Covers config state.last_mem_trigger_ns r.now
            → (is_mem_kind out.kind ≡ false)
              × (state'.last_mem_trigger_ns ≡ state.last_mem_trigger_ns))
  mem-round state r =
      let (_, m, s, first) = evaluate_independent config state r.samples r.mem r.now in
      let (_, _, cpu_mem, cpu_swap) = cpu_step-frame config state r.samples r.now in
      let (mem_sets, mem_mem, mem_swap) = mem_step-trigger state r.mem r.samples r.now in
      let (swap_sets, swap_mem, swap_swap) = swap_step-trigger state r.mem r.samples r.now in
      let fired : is_mem_kind (evaluate_round config state r).1.kind ≡ true
          → (mem_step config state r.mem r.samples r.now).1.has_anomaly ≡ true =
        λ h.
          mem_kind-first_report (cpu_step config state r.samples r.now).1
            (mem_step config state r.mem r.samples r.now).1
            (swap_step config state r.mem r.samples r.now).1 cpu_mem mem_mem swap_mem
            (ap (λ (x : AnomalyResult F). is_mem_kind x.kind) (sym first) ∙ h) in
      let last = ap (λ (v : MemView). v.2) m in
      (
        λ h. last ∙ mem_sets (fired h),
        λ c.
            let (quiet, kept) = mem_step-Covers state r.mem r.samples r.now c in
            (
              elim (Bool-cases (is_mem_kind (evaluate_round config state r).1.kind)) [
                | inl h ↦ absurd (ground (arith, fired h, quiet))
                | inr h ↦ h
              ],
              last ∙ kept,
            ),
      )

  mem-quiet :
      (t : ℕ) (rounds : List (Round F)) (state : AnomalyState)
      → 0 < t
      → state.last_mem_trigger_ns ≡ t
      → All (IsSoon t) rounds
      → All (λ out. is_mem_kind out.kind ≡ false) (results config state rounds)
  mem-quiet t [] state p e soon = tt
  mem-quiet t (r ∷ rs) state p e (now, soon) =
      let c = (mem-round state r).1 (rw e (p, now.0, now.1)) in
      (c.0, mem-quiet t rs (evaluate_round config state r).0 p (c.1 ∙ e) soon)

  -- One round: such a report sets the time; a covered round makes none and keeps the time.
  swap-round :
      (state : AnomalyState) (r : Round F)
      → let (state', out) = evaluate_round config state r in
        (is_swap_kind out.kind ≡ true → state'.last_swap_trigger_ns ≡ r.now)
        × (Covers config state.last_swap_trigger_ns r.now
            → (is_swap_kind out.kind ≡ false)
              × (state'.last_swap_trigger_ns ≡ state.last_swap_trigger_ns))
  swap-round state r =
      let (_, m, s, first) = evaluate_independent config state r.samples r.mem r.now in
      let (_, _, cpu_mem, cpu_swap) = cpu_step-frame config state r.samples r.now in
      let (mem_sets, mem_mem, mem_swap) = mem_step-trigger state r.mem r.samples r.now in
      let (swap_sets, swap_mem, swap_swap) = swap_step-trigger state r.mem r.samples r.now in
      let fired : is_swap_kind (evaluate_round config state r).1.kind ≡ true
          → (swap_step config state r.mem r.samples r.now).1.has_anomaly ≡ true =
        λ h.
          swap_kind-first_report (cpu_step config state r.samples r.now).1
            (mem_step config state r.mem r.samples r.now).1
            (swap_step config state r.mem r.samples r.now).1 cpu_swap mem_swap swap_swap
            (ap (λ (x : AnomalyResult F). is_swap_kind x.kind) (sym first) ∙ h) in
      let last = ap (λ (v : MemView). v.2) s in
      (
        λ h. last ∙ swap_sets (fired h),
        λ c.
            let (quiet, kept) = swap_step-Covers state r.mem r.samples r.now c in
            (
              elim (Bool-cases (is_swap_kind (evaluate_round config state r).1.kind)) [
                | inl h ↦ absurd (ground (arith, fired h, quiet))
                | inr h ↦ h
              ],
              last ∙ kept,
            ),
      )

  swap-quiet :
      (t : ℕ) (rounds : List (Round F)) (state : AnomalyState)
      → 0 < t
      → state.last_swap_trigger_ns ≡ t
      → All (IsSoon t) rounds
      → All (λ out. is_swap_kind out.kind ≡ false) (results config state rounds)
  swap-quiet t [] state p e soon = tt
  swap-quiet t (r ∷ rs) state p e (now, soon) =
      let c = (swap-round state r).1 (rw e (p, now.0, now.1)) in
      (c.0, swap-quiet t rs (evaluate_round config state r).0 p (c.1 ∙ e) soon)

  -- After a round at a time t above 0 that reports a memory anomaly, no round later than t and
  -- before t plus the cooldown reports one, whatever the rounds are and in whatever order their
  -- times are; the same holds of swap anomalies.
  pub evaluate_cooldown :
      (state : AnomalyState) (r : Round F) (rounds : List (Round F))
      → 0 < r.now
      → All (IsSoon r.now) rounds
      → let (state', out) = evaluate_round config state r in
        (is_mem_kind out.kind ≡ true
          → All (λ later. is_mem_kind later.kind ≡ false) (results config state' rounds))
        × (is_swap_kind out.kind ≡ true
            → All (λ later. is_swap_kind later.kind ≡ false) (results config state' rounds))
  evaluate_cooldown state r rounds p soon = (
    λ h. mem-quiet r.now rounds _ p ((mem-round state r).0 h) soon,
    λ h. swap-quiet r.now rounds _ p ((swap-round state r).0 h) soon,
  )
