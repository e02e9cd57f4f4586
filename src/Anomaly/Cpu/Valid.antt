-- ===== src/Anomaly/Cpu/Valid.antt =====
-- The cooldown table stays valid through the loop of `evaluate_cpu`.
use spiketrace.Prelude.{
  ℕ, ◌+◌, ◌≤◌, ◌<◌, ◌≡◌, refl, Bool, true, false, some, List, [], ◌∷◌, arith, inl, inr, length, ltb,
  Bool-cases,
}
use spiketrace.Prelude.Int.{ℤ}
use spiketrace.Double.{Double}
use spiketrace.Snapshot.{ProcSample}
use spiketrace.Anomaly.Types.{AnomalyConfig, Table, compute_scope_key}
use spiketrace.Anomaly.Cooldown.{table_size, cooldown_is_active, cooldown_record}
use spiketrace.Anomaly.Cooldown.Lookup.{IsDistinct, holds_back}
use spiketrace.Anomaly.Cooldown.Removal.{cooldown_is_active-Checked}
use spiketrace.Anomaly.Cooldown.Recording.{cooldown_record-Recorded}
use spiketrace.Anomaly.Cpu.{
  Scan, after_new_check, after_delta_check, is_new_candidate, new_key, new_spike, delta_spike,
  scan_sample, scan_samples,
}

pub record IsValid (t : Table) : Type 0 where
  pub distinct : IsDistinct t
  pub bounded : length t ≤ table_size

pub cooldown_is_active-IsValid :
    (t : Table) (key : ℤ) (now cooldown : ℕ)
    → IsValid t
    → IsValid (cooldown_is_active t key now cooldown).1
cooldown_is_active-IsValid t key now cooldown v =
    let c = cooldown_is_active-Checked t key now cooldown v.distinct in
    record { distinct = c.distinct; bounded = omega (arith, c.bounded, v.bounded) }

pub cooldown_record-IsValid :
    (t : Table) (key : ℤ) (ts : ℕ) → IsValid t → IsValid (cooldown_record t key ts)
cooldown_record-IsValid t key ts v =
    let r = cooldown_record-Recorded t key ts v.distinct in
    record { distinct = r.distinct; bounded = r.bounded v.bounded }

pub holds_back-soon :
    (last now cooldown : ℕ) → now < last + cooldown → holds_back (some last) now cooldown ≡ true
unfolding holds_back
holds_back-soon last now cooldown h = ground arith

module _ {F : Type 0} ⦃d : Double F⦄ (config : AnomalyConfig F) (now : ℕ) where
  -- the table after each part of the loop
  pub cooldowns-after_new_check :
      (s : ProcSample F) (scan : Scan F) (out : Bool × Table)
      → (after_new_check config now s scan out).1.cooldowns ≡ out.1
  unfolding after_new_check
  cooldowns-after_new_check s scan (true, t) = refl
  cooldowns-after_new_check s scan (false, t) = ground arith

  pub cooldowns-after_delta_check :
      (s : ProcSample F) (scan : Scan F) (out : Bool × Table)
      → (after_delta_check config now s scan out).cooldowns ≡ out.1
  unfolding after_delta_check
  cooldowns-after_delta_check s scan (true, t) = refl
  cooldowns-after_delta_check s scan (false, t) = ground arith

  pub new_spike-IsValid :
      (s : ProcSample F) (scan : Scan F)
      → IsValid scan.cooldowns
      → IsValid (new_spike config now s scan).1.cooldowns
  unfolding new_spike
  new_spike-IsValid s scan v =
      let t = scan.cooldowns in
      elim (Bool-cases (is_new_candidate config now s)) [
        | inl new ↦
            rw (new, cooldowns-after_new_check s scan)
              (cooldown_is_active-IsValid t (new_key config now s) now config.cooldown_ns v)
        | inr old ↦ rw old v
      ]

  pub delta_spike-IsValid :
      (s : ProcSample F) (scan : Scan F)
      → IsValid scan.cooldowns
      → IsValid (delta_spike config now s scan).cooldowns
  unfolding delta_spike
  delta_spike-IsValid s scan v =
      let t = scan.cooldowns in
      elim (Bool-cases (ltb 2 s.sample_count)) [
        | inl old ↦
            rw (old, cooldowns-after_delta_check s scan)
              (cooldown_is_active-IsValid t (compute_scope_key s config.trigger_scope) now
                config.cooldown_ns v)
        | inr new ↦ rw new v
      ]

  pub scan_samples-IsValid :
      (samples : List (ProcSample F)) (scan : Scan F)
      → IsValid scan.cooldowns
      → IsValid (scan_samples config now samples scan).cooldowns
  unfolding scan_samples scan_sample
  scan_samples-IsValid [] scan v = v
  scan_samples-IsValid (s ∷ samples) scan v =
      scan_samples-IsValid samples (scan_sample config now s scan) (
        ground (
          arith,
          new_spike-IsValid s scan v,
          delta_spike-IsValid s (new_spike config now s scan).1,
        ))
