-- ===== src/Anomaly/Cpu/Report.antt =====
-- What a CPU report means: its sample is eligible, and no eligible sample is worse.
use mathlib.Core.List.{Mem, mem-cons_self, mem-cons_of_mem}
use spiketrace.Prelude.{
  ℕ, ◌≡◌, refl, Bool, true, false, ◌&&◌, subst, Option, none, some, List, [], ◌∷◌, arith, inl, inr,
  All, Bool-cases,
}
use spiketrace.Prelude.Int.{ℤ}
use spiketrace.Double.{Double, IsOrdered, nought}
use spiketrace.Snapshot.{ProcSample}
use spiketrace.Anomaly.Types.{AnomalyConfig, AnomalyResult, no_result, AnomalyState}
use spiketrace.Anomaly.Cooldown.Lookup.{IsDistinct}
use spiketrace.Anomaly.Cpu.{cpu_report, evaluate_cpu}
use spiketrace.Anomaly.Cpu.Pick.{
  held_by, is_young, measure, is_eligible, Best, pick, pick_all, nothing_yet, report_of,
  evaluate_cpu-pick_all,
}

module _ {F : Type 0} ⦃d : Double F⦄ (laws : IsOrdered F) (config : AnomalyConfig F) (now : ℕ)
    (held : ℤ → Bool) where
  lt_trans : (x y z : F) → d.lt x y ≡ true → d.lt y z ≡ true → d.lt x z ≡ true
  lt_trans x y z p q = laws.lt-le_trans x y z p (laws.le_of_lt y z q)

  -- a larger bound bounds as well
  bound_mono : (x y m : F) → d.lt x y ≡ true → d.lt x m ≡ false → d.lt y m ≡ false
  bound_mono x y m up b = elim (Bool-cases (d.lt y m)) [
    | inl less ↦ ground (arith, lt_trans x y m up less)
    | inr ok ↦ ok
  ]

  abbrev pub IsBound : F → ProcSample F → Type 0
  IsBound top s = is_eligible config now held s ≡ true → d.lt top (measure config now s) ≡ false

  -- the search never goes down
  abbrev Rises : F → F → Type 0
  Rises x y = (m : F) → d.lt x m ≡ false → d.lt y m ≡ false

  pick-Rises :
      (s : ProcSample F) (best : Best F)
      → Rises best.max_spike (pick config now held s best).max_spike
  unfolding pick
  pick-Rises s best m h = ground (arith, bound_mono best.max_spike (measure config now s) m)

  pick-IsBound :
      (s : ProcSample F) (best : Best F) → IsBound (pick config now held s best).max_spike s
  unfolding pick
  pick-IsBound s best e = ground (arith, laws.lt_irrefl (measure config now s))

  pick_all-Rises :
      (samples : List (ProcSample F)) (best : Best F)
      → Rises best.max_spike (pick_all config now held samples best).max_spike
  unfolding pick_all
  pick_all-Rises [] best m h = h
  pick_all-Rises (s ∷ samples) best m h =
      pick_all-Rises samples (pick config now held s best) m (pick-Rises s best m h)

  pick_all-IsBound :
      (samples : List (ProcSample F)) (best : Best F)
      → All (IsBound (pick_all config now held samples best).max_spike) samples
  unfolding pick_all
  pick_all-IsBound [] best = tt
  pick_all-IsBound (s ∷ samples) best = (
    λ e.
        pick_all-Rises samples (pick config now held s best) (measure config now s)
          (pick-IsBound s best e),
    pick_all-IsBound samples (pick config now held s best),
  )

  -- what is known of the candidate among the samples `all`
  abbrev IsFound : List (ProcSample F) → Option (ProcSample F) → Bool → F → Type 0
  IsFound all none is_new top = top ≡ nought
  IsFound all (some s) is_new top =
      Mem s all
      × (is_eligible config now held s ≡ true)
      × (is_new ≡ is_young config now s)
      × (top ≡ measure config now s)
      × (d.lt nought top ≡ true)

  abbrev FoundIn : List (ProcSample F) → Best F → Type 0
  FoundIn all best = IsFound all best.worst best.is_new best.max_spike

  -- the bound so far is never below nought
  floor :
      (all : List (ProcSample F)) (worst : Option (ProcSample F)) (is_new : Bool) (top x : F)
      → IsFound all worst is_new top
      → d.lt top x ≡ true
      → d.lt nought x ≡ true
  floor all none is_new top x e up = subst (λ t. d.lt t x ≡ true) e up
  floor all (some s) is_new top x (_, _, _, _, above) up = lt_trans nought top x above up

  pick-FoundIn :
      (all : List (ProcSample F)) (s : ProcSample F) (best : Best F)
      → Mem s all
      → FoundIn all best
      → FoundIn all (pick config now held s best)
  unfolding pick
  pick-FoundIn all s best here found =
      elim (Bool-cases
        (is_eligible config now held s && d.lt best.max_spike (measure config now s))) [
          | inl better ↦ rw better (
            here,
            ground arith,
            refl,
            refl,
            floor all best.worst best.is_new best.max_spike (measure config now s) found
                (ground arith),
          )
          | inr worse ↦ rw worse found
        ]

  pick_all-FoundIn :
      (all samples : List (ProcSample F)) (best : Best F)
      → ((s : ProcSample F) → Mem s samples → Mem s all)
      → FoundIn all best
      → FoundIn all (pick_all config now held samples best)
  unfolding pick_all
  pick_all-FoundIn all [] best inside found = found
  pick_all-FoundIn all (s ∷ samples) best inside found =
      pick_all-FoundIn all samples (pick config now held s best)
        (λ r m. inside r (mem-cons_of_mem s m))
        (pick-FoundIn all s best (inside s mem-cons_self) found)

  -- the two readings of a report
  abbrev pub IsWorst : List (ProcSample F) → AnomalyResult F → Type 0
  IsWorst samples out =
      (s : ProcSample F) × Mem s samples
      × (is_eligible config now held s ≡ true)
      × (out ≡ cpu_report config now s (is_young config now s) no_result)
      × (d.lt nought (measure config now s) ≡ true)
      × All (IsBound (measure config now s)) samples

  IsWorst-report_of :
      (samples : List (ProcSample F)) (worst : Option (ProcSample F)) (is_new : Bool) (top : F)
      → IsFound samples worst is_new top
      → All (IsBound top) samples
      → let out =
          report_of config now (record { max_spike = top; worst = worst; is_new = is_new }) in
        (out.has_anomaly ≡ true → IsWorst samples out)
        × (out.has_anomaly ≡ false → All (IsBound nought) samples)
  IsWorst-report_of samples none is_new top e bound =
      (λ reported. absurd (ground arith), λ silent. subst (λ t. All (IsBound t) samples) e bound)
  IsWorst-report_of samples (some s) is_new top (here, fits, new, at, above) bound = (
    λ reported. (
      s,
      here,
      fits,
      rw new refl,
      subst (λ t. d.lt nought t ≡ true) at above,
      subst (λ t. All (IsBound t) samples) at bound,
    ),
    λ silent. absurd (ground arith),
  )

module _ {F : Type 0} ⦃d : Double F⦄ (laws : IsOrdered F) (config : AnomalyConfig F) (now : ℕ) where
  -- `evaluate_cpu`, over doubles whose order obeys the laws and a table of distinct keys: a report
  -- is about one of the samples, which is eligible (valid, its measure reaches its threshold and
  -- its key is not held back by the cooldowns), whose measure is above zero, and no eligible
  -- sample has a greater one. Without a report no eligible sample has a measure above zero.
  pub evaluate_cpu-IsWorst :
      (state : AnomalyState) (samples : List (ProcSample F))
      → IsDistinct state.cooldowns
      → let held = held_by state.cooldowns now config.cooldown_ns in
        let out = (evaluate_cpu config now state samples no_result).1 in
        (out.has_anomaly ≡ true → IsWorst laws config now held samples out)
        × (out.has_anomaly ≡ false → All (IsBound laws config now held nought) samples)
  evaluate_cpu-IsWorst state samples v =
      let held = held_by state.cooldowns now config.cooldown_ns in
      let best = pick_all config now held samples nothing_yet in
      rw (evaluate_cpu-pick_all config now state samples v) (
        IsWorst-report_of laws config now held samples best.worst best.is_new best.max_spike
          (pick_all-FoundIn laws config now held samples samples nothing_yet (λ s m. m) refl)
          (pick_all-IsBound laws config now held samples nothing_yet))
