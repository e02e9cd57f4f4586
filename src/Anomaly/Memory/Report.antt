-- ===== src/Anomaly/Memory/Report.antt =====
-- When a memory detector reports, in plain arithmetic, and whom it names.
use spiketrace.Prelude.{
  ℕ, ◌+◌, ◌^◌, ◌≤◌, ◌<◌, ◌≡◌, refl, ◌↔◌, ◌⊎◌, inl, inr, true, false, Option, none, some, List,
  arith, Bool-cases,
}
use spiketrace.Prelude.Int.{pos}
use spiketrace.Double.{Double}
use spiketrace.Snapshot.{ProcSample, MemSnapshot}
use spiketrace.Anomaly.Types.{AnomalyType, AnomalyConfig, AnomalyResult, AnomalyState, no_result}
use spiketrace.Anomaly.Memory.{
  top_rss, is_cooling, attribute, is_swap_spike, mem_delta, swap_used_of, swap_report,
  evaluate_swap,
}
use spiketrace.Anomaly.Memory.Culprit.{IsTop, top_rss-IsTop}

-- What a memory or swap report says of the named process.
module _ {F : Type 0} ⦃d : Double F⦄ where
  abbrev pub Names : List (ProcSample F) → AnomalyResult F → Type 0
  Names samples out =
      ((s : ProcSample F) × IsTop samples samples (some s) × (out.spike_pid ≡ s.pid))
      ⊎ (IsTop samples samples none × (out.spike_pid ≡ pos 0))

module _ {F : Type 0} ⦃d : Double F⦄ (config : AnomalyConfig F) where
  attribute-Names :
      (samples : List (ProcSample F)) (top : Option (ProcSample F)) (out : AnomalyResult F)
      → out.spike_pid ≡ pos 0
      → IsTop samples samples top
      → Names samples (attribute config top out)
  unfolding attribute
  attribute-Names samples none out e t = inr (t, e)
  attribute-Names samples (some s) out e t = inl (s, t, refl)

  has_anomaly-attribute :
      (top : Option (ProcSample F)) (out : AnomalyResult F)
      → ((attribute config top out).has_anomaly ≡ out.has_anomaly)
        × ((attribute config top out).kind ≡ out.kind)
  unfolding attribute
  has_anomaly-attribute none out = (refl, refl)
  has_anomaly-attribute (some s) out = (refl, refl)

  -- the drop and the rise, in plain arithmetic
  abbrev pub Drops : ℕ → ℕ → Type 0
  Drops x baseline = (x < baseline) × (x + config.mem_drop_threshold_kib ≤ baseline)

  abbrev pub Rises : ℕ → ℕ → Type 0
  Rises x baseline = (baseline < x) × (baseline + config.swap_spike_threshold_kib ≤ x)

  is_swap_spike-Rises :
      (x baseline : ℕ)
      → x < 2 ^ 63
      → baseline < 2 ^ 63
      → (is_swap_spike config (mem_delta config x baseline) ≡ true) ↔ Rises x baseline
  unfolding is_swap_spike
  is_swap_spike-Rises x baseline hx hb = (λ h. (ground arith, ground arith), λ (p, q). ground arith)

  swap_report-says :
      (samples : List (ProcSample F)) (x baseline : ℕ)
      → let out = swap_report config samples x baseline no_result in
        (out.has_anomaly ≡ true) × (out.kind ≡ AnomalyType.swap_spike) × Names samples out
  unfolding swap_report
  swap_report-says samples x baseline =
      let (fired, kind) = has_anomaly-attribute (top_rss samples 0 none) _ in
      (fired, kind, attribute-Names samples (top_rss samples 0 none) _ refl (top_rss-IsTop samples))

  -- `evaluate_swap` with an initialised baseline, swap present, and both amounts below 2^63. In the
  -- cooldown it reports nothing. Otherwise it reports exactly if the used swap is above the
  -- baseline by the threshold or more; the report is a swap spike, and it names a valid process
  -- with the largest resident set, or 0 if no valid one has any.
  pub evaluate_swap_reports :
      (state : AnomalyState) (mem : MemSnapshot) (samples : List (ProcSample F)) (now : ℕ)
      → 0 < mem.swap_total_ram_kib
      → state.swap_baseline_initialized ≡ true
      → swap_used_of config mem < 2 ^ 63
      → state.swap_baseline_kib < 2 ^ 63
      → let out = (evaluate_swap config state mem samples now no_result).1 in
        (is_cooling config state.last_swap_trigger_ns now ≡ true → out.has_anomaly ≡ false)
        × (is_cooling config state.last_swap_trigger_ns now ≡ false
            → ((out.has_anomaly ≡ true) ↔ Rises (swap_used_of config mem) state.swap_baseline_kib)
              × (out.has_anomaly ≡ true → (out.kind ≡ AnomalyType.swap_spike) × Names samples out))
  unfolding evaluate_swap
  evaluate_swap_reports state mem samples now p init ha hb =
      let base = state.swap_baseline_kib in
      let used = swap_used_of config mem in
      let is_r = is_swap_spike-Rises used base ha hb in
      let (fired, kind, names) = swap_report-says samples used base in
      (
        λ cooling. ground arith,
        λ free. elim (Bool-cases (is_swap_spike config (mem_delta config used base))) [
          | inl fires ↦
              let out_eq : (evaluate_swap config state mem samples now no_result).1
                  ≡ swap_report config samples used base no_result =
                ground arith in
              rw out_eq ((λ _. is_r.0 fires, λ _. fired), λ _. (kind, names))
          | inr silent ↦
              let out_eq : (evaluate_swap config state mem samples now no_result).1 ≡ no_result =
                ground arith in
              rw out_eq (
                (λ k. absurd (ground arith), λ r. absurd (ground (arith, is_r.1 r))),
                λ k. absurd (ground arith),
              )
        ],
      )
