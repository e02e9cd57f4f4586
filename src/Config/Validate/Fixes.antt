-- ===== src/Config/Validate/Fixes.antt =====
-- `config_validate` leaves alone what obeys the bounds.
use spiketrace.Prelude.{◌*◌, ◌≡◌, refl, ap, ◌∙◌, inl, inr, false, [], ◌∷◌, arith, ltb, Bytes}
use spiketrace.Status.{ok}
use spiketrace.Double.{Double, IsOrdered, is_nan}
use spiketrace.Config.Types.{Config}
use spiketrace.Config.Validate.{
  has_nan, corrected, validate, safe_directory, validate_detection, validate_sampling,
  validate_processes, validate_output, validate_features, validate_tuning, validate_logs,
}
use spiketrace.Config.Validate.Bounds.{Within, IsValid, reset_ℕ_self, Within-reset}
use spiketrace.Config.Validate.Soundness.{Allowed}

safe_directory_self : (dir path : Bytes) → Allowed path → safe_directory dir path ≡ path
safe_directory_self dir [] a = refl
safe_directory_self dir (b ∷ path) (inl e) = absurd (ground arith)
safe_directory_self dir (b ∷ path) (inr fine) = rw fine refl

module _ {F : Type 0} ⦃d : Double F⦄ (laws : IsOrdered F) (dir : Bytes) where
  -- each part of the check leaves valid settings alone
  detection_self : (c : Config F) → IsValid c → validate_detection c ≡ c
  detection_self c v =
      rw
        (Within-reset laws (d.literal 1 10) (d.literal 100 1) (d.literal 10 1)
          c.cpu_delta_threshold_pct v.cpu_delta)
        (rw
          (Within-reset laws (d.literal 1 10) (d.literal 100 1) (d.literal 5 1)
            c.new_process_threshold_pct v.new_process)
          (rw
            (reset_ℕ_self (1 * 1024) (1024 * 1024 * 1024) (512 * 1024) c.mem_drop_threshold_kib
              v.mem_drop)
            (rw
              (Within-reset laws (d.literal 50 1) (d.literal 100 1) (d.literal 90 1)
                c.mem_pressure_threshold_pct v.mem_pressure)
              (rw
                (reset_ℕ_self (1 * 1024) (1024 * 1024 * 1024) (256 * 1024)
                  c.swap_spike_threshold_kib v.swap_spike)
                (rw
                  (Within-reset laws (d.literal 1 10) (d.literal 300 1) (d.literal 5 1)
                    c.cooldown_seconds v.cooldown)
                  refl)))))

  sampling_self : (c : Config F) → IsValid c → validate_sampling c ≡ c
  sampling_self c v =
      let fits : ltb c.ring_buffer_capacity c.context_snapshots_per_dump ≡ false =
        ground (arith, v.context_fits) in
      rw
        (Within-reset laws (d.literal 1 10) (d.literal 10 1) (d.literal 1 1)
          c.sampling_interval_seconds v.sampling)
        (rw (reset_ℕ_self 10 600 60 c.ring_buffer_capacity v.capacity)
          (rw (reset_ℕ_self 1 60 10 c.context_snapshots_per_dump v.context) (rw fits refl)))

  processes_self : (c : Config F) → IsValid c → validate_processes c ≡ c
  processes_self c v =
      let fits : ltb c.max_processes_tracked c.top_processes_stored ≡ false =
        ground (arith, v.top_fits) in
      rw (reset_ℕ_self 10 1024 512 c.max_processes_tracked v.tracked)
        (rw (reset_ℕ_self 1 50 10 c.top_processes_stored v.top) (rw fits refl))

  tuning_self : (c : Config F) → IsValid c → validate_tuning c ≡ c
  tuning_self c v =
      rw
        (Within-reset laws (d.literal 1 100) (d.literal 9 10) (d.literal 2 10)
          c.memory_baseline_alpha v.memory_alpha)
        (rw
          (Within-reset laws (d.literal 1 100) (d.literal 9 10) (d.literal 3 10)
            c.process_baseline_alpha v.process_alpha)
          refl)

  logs_self : (c : Config F) → IsValid c → validate_logs c ≡ c
  logs_self c v = rw (reset_ℕ_self 1 365 30 c.log_max_age_days v.max_age) (
      rw (reset_ℕ_self 1 10000 100 c.log_max_count v.max_count) (
        rw (reset_ℕ_self 1 (100 * 1024) 512 c.log_max_total_size_mib v.max_size)
          (rw (reset_ℕ_self 1 (24 * 60) 60 c.cleanup_interval_minutes v.interval) refl)))

  output_self : (c : Config F) → IsValid c → validate_output dir c ≡ c
  output_self c v = rw (safe_directory_self dir c.output_directory v.directory) refl

  features_self : (c : Config F) → IsValid c → validate_features c ≡ c
  features_self c v = rw v.detection refl

  corrected_self : (c : Config F) → IsValid c → corrected dir c ≡ c
  corrected_self c v =
      ap
        (λ x. validate_logs (
          validate_tuning
            (validate_features (validate_output dir (validate_processes (validate_sampling x))))))
        (detection_self c v)
      ∙ ap
          (λ x.
            validate_logs
              (validate_tuning (validate_features (validate_output dir (validate_processes x)))))
          (sampling_self c v)
      ∙ ap (λ x. validate_logs (validate_tuning (validate_features (validate_output dir x))))
          (processes_self c v)
      ∙ ap (λ x. validate_logs (validate_tuning (validate_features x))) (output_self c v)
      ∙ ap (λ x. validate_logs (validate_tuning x)) (features_self c v)
      ∙ ap (λ x. validate_logs x) (tuning_self c v)
      ∙ logs_self c v

  IsValid-numbers : (c : Config F) → IsValid c → has_nan c ≡ false
  IsValid-numbers c v =
      let number : (low high x : F) → Within low high x → is_nan x ≡ false =
        λ low high x w. ground (arith, laws.le-eq low x w.0) in
      ground (
        arith,
        number _ _ _ v.cpu_delta,
        number _ _ _ v.new_process,
        number _ _ _ v.mem_pressure,
        number _ _ _ v.cooldown,
        number _ _ _ v.sampling,
        number _ _ _ v.memory_alpha,
        number _ _ _ v.process_alpha,
      )

  -- Settings that are within their bounds pass `config_validate` unchanged, with SPKT_OK; so a
  -- second call changes nothing that the first one left.
  pub validate_fixes : (c : Config F) → IsValid c → validate dir c ≡ (ok, c)
  unfolding validate
  validate_fixes c v =
      let same = corrected_self c v in
      let numbers : has_nan (corrected dir c) ≡ false = ap has_nan same ∙ IsValid-numbers c v in
      rw numbers (ap (λ x. (ok, x)) same)
