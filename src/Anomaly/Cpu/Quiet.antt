-- ===== src/Anomaly/Cpu/Quiet.antt =====
-- A key is not reported again by `evaluate_cpu` before its cooldown has passed.
use spiketrace.Prelude.{
  ℕ, ◌+◌, ◌<◌, ◌≡◌, ◌≢◌, refl, Bool, true, false, not, ◌&&◌, Option, none, some, List, [], ◌∷◌,
  arith, inl, inr, ltb, if_both, Bool-cases,
}
use spiketrace.Prelude.Int.{ℤ, eqb_ℤ, eqb_ℤ_iff}
use spiketrace.Double.{Double}
use spiketrace.Snapshot.{ProcSample}
use spiketrace.Anomaly.Types.{AnomalyConfig, no_result, AnomalyState, Table, compute_scope_key}
use spiketrace.Anomaly.Cooldown.{cooldown_is_active}
use spiketrace.Anomaly.Cooldown.Lookup.{lookup, holds_back}
use spiketrace.Anomaly.Cooldown.Removal.{cooldown_is_active-Checked}
use spiketrace.Anomaly.Cooldown.Recording.{cooldown_record-Recorded}
use spiketrace.Anomaly.Cpu.{
  Scan, after_new_check, after_delta_check, is_new_candidate, new_key, delta_of, new_spike,
  delta_spike, scan_sample, scan_samples, scan_start, record_key, finish, evaluate_cpu,
}
use spiketrace.Anomaly.Cpu.Valid.{
  IsValid, cooldown_record-IsValid, holds_back-soon, scan_samples-IsValid,
}

module _ {F : Type 0} ⦃d : Double F⦄ (config : AnomalyConfig F) (now : ℕ) where
  -- The candidate, if there is one, is not under the key.
  abbrev IsAway : ℤ → Option (ProcSample F) → Bool → Type 0
  IsAway key none is_new = Unit {0}
  IsAway key (some s) is_new = record_key config now s is_new ≢ key

  -- A key that is held back at the start stays so with its time, and no candidate has that key.
  abbrev Keeps : ℤ → ℕ → Scan F → Type 0
  Keeps key ts scan =
      IsValid scan.cooldowns
      × (lookup key scan.cooldowns ≡ some ts)
      × IsAway key scan.worst scan.is_new

  module _ (key : ℤ) (ts : ℕ) (held : holds_back (some ts) now config.cooldown_ns ≡ true) where
    -- after a check of some key
    Keeps-checked :
        (t : Table) (j : ℤ)
        → IsValid t
        → lookup key t ≡ some ts
        → let out = cooldown_is_active t j now config.cooldown_ns in
          IsValid out.1 × (lookup key out.1 ≡ some ts) × (out.0 ≡ false → j ≢ key)
    Keeps-checked t j v h =
        let c = cooldown_is_active-Checked t j now config.cooldown_ns v.distinct in
        let valid : IsValid (cooldown_is_active t j now config.cooldown_ns).1 = record {
          distinct = c.distinct;
          bounded = omega (arith, c.bounded, v.bounded);
        } in
        elim (Bool-cases (eqb_ℤ j key)) [
          | inl same ↦
              let e : j ≡ key = (eqb_ℤ_iff j key).0 same in
              let active : (cooldown_is_active t j now config.cooldown_ns).0 ≡ true =
                ground (arith, c.answer) in
              (valid, ground (arith, c.own, c.answer), λ free. absurd (ground arith))
          | inr other ↦
              (valid, ground (arith, c.others key), λ _ e. ground (arith, eqb_ℤ_iff j key))
        ]

    Keeps-new :
        (s : ProcSample F) (scan : Scan F)
        → Keeps key ts scan
        → Keeps key ts (new_spike config now s scan).1
    unfolding new_spike after_new_check
    Keeps-new s scan (v, h, away) = elim (Bool-cases (is_new_candidate config now s)) [
      | inl new ↦ rw new (after _ (Keeps-checked scan.cooldowns (new_key config now s) v h))
      | inr old ↦ rw old (v, h, away)
    ]
      where
        after :
            (out : Bool × Table)
            → IsValid out.1
              × (lookup key out.1 ≡ some ts)
              × (out.0 ≡ false → new_key config now s ≢ key)
            → Keeps key ts (after_new_check config now s scan out).1
        after (true, t) (v', h', ne) = (v', h', away)
        after (false, t) (v', h', ne) = elim (Bool-cases (d.lt scan.max_spike s.cpu_pct)) [
          | inl more ↦ rw more (v', h', ne refl)
          | inr less ↦ rw less (v', h', away)
        ]

    Keeps-delta :
        (s : ProcSample F) (scan : Scan F)
        → Keeps key ts scan
        → Keeps key ts (delta_spike config now s scan)
    unfolding delta_spike after_delta_check
    Keeps-delta s scan (v, h, away) = elim (Bool-cases (ltb 2 s.sample_count)) [
      | inl old ↦
          rw old
            (after _ (Keeps-checked scan.cooldowns (compute_scope_key s config.trigger_scope) v h))
      | inr new ↦ rw new (v, h, away)
    ]
      where
        after :
            (out : Bool × Table)
            → IsValid out.1
              × (lookup key out.1 ≡ some ts)
              × (out.0 ≡ false → compute_scope_key s config.trigger_scope ≢ key)
            → Keeps key ts (after_delta_check config now s scan out)
        after (true, t) (v', h', ne) = (v', h', away)
        after (false, t) (v', h', ne) =
            elim (Bool-cases (
              d.le config.cpu_delta_threshold_pct (delta_of config now s)
              && d.lt scan.max_spike (delta_of config now s))) [
                | inl more ↦ rw more (v', h', ne refl)
                | inr less ↦ rw less (v', h', away)
              ]

    Keeps-sample :
        (s : ProcSample F) (scan : Scan F)
        → Keeps key ts scan
        → Keeps key ts (scan_sample config now s scan)
    unfolding scan_sample
    Keeps-sample s scan k =
        let next = new_spike config now s scan in
        let first = Keeps-new s scan k in
        if_both (Keeps key ts) (not s.valid) k
          (if_both (Keeps key ts) next.0 first (Keeps-delta s next.1 first))

    Keeps-samples :
        (samples : List (ProcSample F)) (scan : Scan F)
        → Keeps key ts scan
        → Keeps key ts (scan_samples config now samples scan)
    unfolding scan_samples
    Keeps-samples [] scan k = k
    Keeps-samples (s ∷ samples) scan k =
        Keeps-samples samples (scan_sample config now s scan) (Keeps-sample s scan k)

    finish-away :
        (state : AnomalyState) (worst : Option (ProcSample F)) (is_new : Bool) (t : Table)
        → IsAway key worst is_new
        → let out = (finish config now state worst is_new t no_result).1 in
          out.has_anomaly ≡ true → out.scope_key ≢ key
    unfolding finish
    finish-away state none is_new t away reported = absurd (ground arith)
    finish-away state (some s) is_new t away reported = away

    -- A key that is held back when `evaluate_cpu` starts is not the key of its report.
    pub evaluate_cpu-away :
        (state : AnomalyState) (samples : List (ProcSample F))
        → IsValid state.cooldowns
        → lookup key state.cooldowns ≡ some ts
        → let out = (evaluate_cpu config now state samples no_result).1 in
          out.has_anomaly ≡ true → out.scope_key ≢ key
    unfolding evaluate_cpu
    evaluate_cpu-away state samples v h =
        let scan = scan_samples config now samples (scan_start config now state.cooldowns) in
        let (v', h', away) =
          Keeps-samples samples (scan_start config now state.cooldowns) (v, h, tt) in
        finish-away state scan.worst scan.is_new scan.cooldowns away

  finish-recorded :
      (state : AnomalyState) (worst : Option (ProcSample F)) (is_new : Bool) (t : Table)
      → IsValid t
      → let (state', out) = finish config now state worst is_new t no_result in
        IsValid state'.cooldowns
        × (out.has_anomaly ≡ true → lookup out.scope_key state'.cooldowns ≡ some now)
  unfolding finish
  finish-recorded state none is_new t v = (v, λ reported. absurd (ground arith))
  finish-recorded state (some s) is_new t v =
      let key = record_key config now s is_new in
      (
        cooldown_record-IsValid t key now v,
        λ reported. (cooldown_record-Recorded t key now v.distinct).own,
      )

  -- `evaluate_cpu` keeps a table of at most 64 distinct keys one, and if it reports, the table
  -- holds the current time for the reported key.
  pub evaluate_cpu-recorded :
      (state : AnomalyState) (samples : List (ProcSample F))
      → IsValid state.cooldowns
      → let (state', out) = evaluate_cpu config now state samples no_result in
        IsValid state'.cooldowns
        × (out.has_anomaly ≡ true → lookup out.scope_key state'.cooldowns ≡ some now)
  unfolding evaluate_cpu
  evaluate_cpu-recorded state samples v =
      let start = scan_start config now state.cooldowns in
      let scan = scan_samples config now samples start in
      finish-recorded state scan.worst scan.is_new scan.cooldowns
        (scan_samples-IsValid config now samples start v)

module _ {F : Type 0} ⦃d : Double F⦄ (config : AnomalyConfig F) where
  -- When `evaluate_cpu`, on a table of at most 64 distinct keys, reports a spike under some key and
  -- is called again with the state that it left, before the cooldown has passed since then, a
  -- report of the second call is under another key.
  pub evaluate_cpu_no_repeat :
      (t t' : ℕ) (state : AnomalyState) (samples samples' : List (ProcSample F))
      → IsValid state.cooldowns
      → t' < t + config.cooldown_ns
      → let (state', out) = evaluate_cpu config t state samples no_result in
        let (state'', out') = evaluate_cpu config t' state' samples' no_result in
        out.has_anomaly ≡ true → out'.has_anomaly ≡ true → out'.scope_key ≢ out.scope_key
  evaluate_cpu_no_repeat t t' state samples samples' v soon first =
      let (state', out) = evaluate_cpu config t state samples no_result in
      let (v', held) = evaluate_cpu-recorded config t state samples v in
      evaluate_cpu-away config t' out.scope_key t (holds_back-soon t t' config.cooldown_ns soon)
        state' samples' v' (held first)
