-- ===== src/Anomaly/Cpu/Pick.antt =====
-- `evaluate_cpu` against a plain search for the largest spike: which samples pass, under which key,
-- and by what measure they compete.
use spiketrace.Prelude.{
  ℕ, ◌≡◌, refl, sym, ◌∙◌, Bool, true, false, not, ◌&&◌, Option, none, some, List, [], ◌∷◌, arith,
  inl, inr, leb, if◌then◌else◌, Bool-cases, Option-cases,
}
use spiketrace.Prelude.Int.{ℤ, eqb_ℤ, eqb_ℤ_iff}
use spiketrace.Double.{Double, nought}
use spiketrace.Snapshot.{ProcSample}
use spiketrace.Anomaly.Types.{
  AnomalyConfig, AnomalyResult, no_result, AnomalyState, Table, compute_scope_key,
}
use spiketrace.Anomaly.Cooldown.{cooldown_is_active}
use spiketrace.Anomaly.Cooldown.Lookup.{lookup, IsDistinct, holds_back}
use spiketrace.Anomaly.Cooldown.Removal.{cooldown_is_active-Checked}
use spiketrace.Anomaly.Cpu.{
  Scan, after_new_check, after_delta_check, new_key, delta_of, new_spike, delta_spike, scan_sample,
  scan_samples, scan_start, cpu_report, finish, evaluate_cpu,
}

-- Whether a key is held back, by the table at the start of the search.
abbrev pub held_by : Table → ℕ → ℕ → ℤ → Bool
held_by t now cooldown key = holds_back (lookup key t) now cooldown

held_by-checked_self :
    (t : Table) (key : ℤ) (now cooldown : ℕ)
    → IsDistinct t
    → held_by (cooldown_is_active t key now cooldown).1 now cooldown key
      ≡ held_by t now cooldown key
unfolding holds_back
held_by-checked_self t key now cooldown v =
    let c = cooldown_is_active-Checked t key now cooldown v in
    elim (Bool-cases (cooldown_is_active t key now cooldown).0) [
      | inl active ↦ rw c.own (rw active)
      | inr free ↦ rw c.own (rw free (sym free ∙ c.answer))
    ]

-- A check of one key changes the answer for no key.
held_by-checked :
    (t : Table) (key : ℤ) (now cooldown : ℕ) (j : ℤ)
    → IsDistinct t
    → held_by (cooldown_is_active t key now cooldown).1 now cooldown j ≡ held_by t now cooldown j
held_by-checked t key now cooldown j v =
    let c = cooldown_is_active-Checked t key now cooldown v in
    elim (Bool-cases (eqb_ℤ j key)) [
      | inl same ↦
          let e : j ≡ key = (eqb_ℤ_iff j key).0 same in
          rw e (held_by-checked_self t key now cooldown v)
      | inr other ↦ rw (c.others j (λ e. ground (arith, eqb_ℤ_iff j key)))
    ]

module _ {F : Type 0} ⦃d : Double F⦄ (config : AnomalyConfig F) (now : ℕ) where
  -- up to two samples a process counts as new
  abbrev pub is_young : ProcSample F → Bool
  is_young s = leb s.sample_count 2

  -- what a sample competes by
  abbrev pub measure : ProcSample F → F
  measure s = if is_young s then s.cpu_pct else delta_of config now s

  abbrev pub key_of : ProcSample F → ℤ
  key_of s = if is_young s then new_key config now s else compute_scope_key s config.trigger_scope

  abbrev pub threshold_of : ProcSample F → F
  threshold_of s =
      if is_young s then config.new_process_threshold_pct else config.cpu_delta_threshold_pct

  -- a valid sample whose measure reaches its threshold and whose key is not held back
  abbrev pub is_eligible : (ℤ → Bool) → ProcSample F → Bool
  is_eligible held s = s.valid && d.le (threshold_of s) (measure s) && not (held (key_of s))

pub record Best (F : Type 0) : Type 0 where
  pub max_spike : F
  pub worst : Option (ProcSample F)
  pub is_new : Bool

module _ {F : Type 0} ⦃d : Double F⦄ (config : AnomalyConfig F) (now : ℕ) (held : ℤ → Bool) where
  -- the specification's step and search
  unfoldable pub pick : ProcSample F → Best F → Best F
  pick s best =
      if is_eligible config now held s && d.lt best.max_spike (measure config now s)
      then record {
        max_spike = measure config now s;
        worst = some s;
        is_new = is_young config now s;
      }
      else best

  unfoldable pub pick_all : List (ProcSample F) → Best F → Best F
  pick_all [] best = best
  pick_all (s ∷ samples) best = pick_all samples (pick s best)

module _ {F : Type 0} where
  abbrev pub view : Scan F → Best F
  view scan = record { max_spike = scan.max_spike; worst = scan.worst; is_new = scan.is_new }

abbrev pub nothing_yet : {F : Type 0} ⦃d : Double F⦄ → Best F
nothing_yet = record { max_spike = nought; worst = none; is_new = false }

module _ {F : Type 0} ⦃d : Double F⦄ (config : AnomalyConfig F) (now : ℕ) (held : ℤ → Bool) where
  abbrev Agrees : Table → Type 0
  Agrees t = IsDistinct t × ((j : ℤ) → held_by t now config.cooldown_ns j ≡ held j)

  Agrees-checked :
      (t : Table) (key : ℤ)
      → Agrees t
      → let out = cooldown_is_active t key now config.cooldown_ns in
        Agrees out.1 × (out.0 ≡ held key)
  Agrees-checked t key (v, same) =
      let c = cooldown_is_active-Checked t key now config.cooldown_ns v in
      (
        (c.distinct, λ j. held_by-checked t key now config.cooldown_ns j v ∙ same j),
        c.answer ∙ same key,
      )

  abbrev Step : ProcSample F → Scan F → Scan F → Type 0
  Step s scan scan' = (view scan' ≡ pick config now held s (view scan)) × Agrees scan'.cooldowns

  Step-young :
      (s : ProcSample F) (scan : Scan F)
      → Agrees scan.cooldowns
      → s.valid ≡ true
      → is_young config now s ≡ true
      → Step s scan (scan_sample config now s scan)
  unfolding scan_sample new_spike delta_spike after_new_check after_delta_check pick
  Step-young s scan a valid young =
      ground (arith, Agrees-checked scan.cooldowns (new_key config now s) a)

  Step-old :
      (s : ProcSample F) (scan : Scan F)
      → Agrees scan.cooldowns
      → s.valid ≡ true
      → is_young config now s ≡ false
      → Step s scan (scan_sample config now s scan)
  unfolding scan_sample new_spike delta_spike after_new_check after_delta_check pick
  Step-old s scan a valid old =
      ground (arith, Agrees-checked scan.cooldowns (compute_scope_key s config.trigger_scope) a)

  Step-invalid :
      (s : ProcSample F) (scan : Scan F)
      → Agrees scan.cooldowns
      → s.valid ≡ false
      → Step s scan (scan_sample config now s scan)
  unfolding scan_sample pick
  Step-invalid s scan a invalid = ground arith

  Step-sample :
      (s : ProcSample F) (scan : Scan F)
      → Agrees scan.cooldowns
      → Step s scan (scan_sample config now s scan)
  Step-sample s scan a = elim (Bool-cases s.valid) [
    | inl valid ↦ elim (Bool-cases (is_young config now s)) [
      | inl young ↦ Step-young s scan a valid young
      | inr old ↦ Step-old s scan a valid old
    ]
    | inr invalid ↦ Step-invalid s scan a invalid
  ]

  scan_samples-pick_all :
      (samples : List (ProcSample F)) (scan : Scan F)
      → Agrees scan.cooldowns
      → view (scan_samples config now samples scan) ≡ pick_all config now held samples (view scan)
  unfolding scan_samples pick_all
  scan_samples-pick_all [] scan a = refl
  scan_samples-pick_all (s ∷ samples) scan a =
      let (step, a') = Step-sample s scan a in
      rw (← step) (scan_samples-pick_all samples (scan_sample config now s scan) a')

module _ {F : Type 0} ⦃d : Double F⦄ (config : AnomalyConfig F) (now : ℕ) where
  abbrev pub report_of : Best F → AnomalyResult F
  report_of best = elim best.worst [
    | none ↦ no_result
    | some s ↦ cpu_report config now s best.is_new no_result
  ]

  finish-report_of :
      (state : AnomalyState) (scan : Scan F)
      → (finish config now state scan.worst scan.is_new scan.cooldowns no_result).1
        ≡ report_of (view scan)
  unfolding finish
  finish-report_of state scan = elim (Option-cases scan.worst) [
    | inl nobody ↦ rw nobody
    | inr (s, found) ↦ rw found
  ]

  -- What `evaluate_cpu` reports is what the plain search picks.
  pub evaluate_cpu-pick_all :
      (state : AnomalyState) (samples : List (ProcSample F))
      → IsDistinct state.cooldowns
      → (evaluate_cpu config now state samples no_result).1
        ≡ report_of (
            pick_all config now
              (held_by state.cooldowns now config.cooldown_ns)
              samples
              nothing_yet)
  unfolding evaluate_cpu
  evaluate_cpu-pick_all state samples v =
      let held = held_by state.cooldowns now config.cooldown_ns in
      let start = scan_start config now state.cooldowns in
      rw (← scan_samples-pick_all config now held samples start (v, λ j. refl))
        (finish-report_of state (scan_samples config now samples start))
