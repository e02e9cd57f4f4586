-- ===== src/Config/Validate/Soundness.antt =====
-- `config_validate` establishes the bounds.
use spiketrace.Prelude.{
  ◌*◌, ◌≡◌, refl, ◌⊎◌, inl, inr, true, false, [], ◌∷◌, arith, if◌then◌else◌, Bool-cases, Bytes,
  take,
}
use spiketrace.Status.{ok, err_invalid_param}
use spiketrace.Double.{Double, IsOrdered, is_nan}
use spiketrace.Config.Types.{Config}
use spiketrace.Config.Defaults.{config_init_defaults}
use spiketrace.Config.Path.{is_safe_absolute_path}
use spiketrace.Config.Validate.{has_nan, corrected, validate, safe_directory}
use spiketrace.Config.Validate.Bounds.{
  IsValid, reset_ℕ-Within, Within-literal, reset-Within, is_nan-reset,
}

abbrev pub Allowed : Bytes → Type 0
Allowed path = (path ≡ []) ⊎ (is_safe_absolute_path path ≡ true)

safe_directory-Allowed :
    (dir path : Bytes)
    → is_safe_absolute_path (take 255 dir) ≡ true
    → Allowed (safe_directory dir path)
safe_directory-Allowed dir [] safe = inl refl
safe_directory-Allowed dir (b ∷ path) safe = elim (Bool-cases (is_safe_absolute_path (b ∷ path))) [
  | inl fine ↦ rw fine (inr fine)
  | inr bad ↦ rw bad (inr safe)
]

module _ {F : Type 0} ⦃d : Double F⦄ (laws : IsOrdered F) (dir : Bytes) where
  has_nan-corrected : (c : Config F) → has_nan (corrected dir c) ≡ has_nan c
  has_nan-corrected c =
      rw (is_nan-reset laws 1 10 10 1 100 1 c.cpu_delta_threshold_pct (omega arith)) (
        rw (is_nan-reset laws 1 10 5 1 100 1 c.new_process_threshold_pct (omega arith)) (
          rw (is_nan-reset laws 50 1 90 1 100 1 c.mem_pressure_threshold_pct (omega arith)) (
            rw (is_nan-reset laws 1 10 5 1 300 1 c.cooldown_seconds (omega arith)) (
              rw (is_nan-reset laws 1 10 1 1 10 1 c.sampling_interval_seconds (omega arith)) (
                rw (is_nan-reset laws 1 100 2 10 9 10 c.memory_baseline_alpha (omega arith)) (
                  rw (is_nan-reset laws 1 100 3 10 9 10 c.process_baseline_alpha (omega arith))
                    refl))))))

  -- The status of `config_validate` is SPKT_ERR_INVALID_PARAM exactly if one of the seven settings
  -- that are doubles is NaN, and SPKT_OK otherwise; numbers out of bounds are not an error.
  pub status-validate :
      (c : Config F) → (validate dir c).0 ≡ (if has_nan c then err_invalid_param else ok)
  unfolding validate
  status-validate c = ground (arith, has_nan-corrected c)

  abbrev Numbers : Config F → Type 0
  Numbers c =
      (is_nan c.cpu_delta_threshold_pct ≡ false)
      × (is_nan c.new_process_threshold_pct ≡ false)
      × (is_nan c.mem_pressure_threshold_pct ≡ false)
      × (is_nan c.cooldown_seconds ≡ false)
      × (is_nan c.sampling_interval_seconds ≡ false)
      × (is_nan c.memory_baseline_alpha ≡ false)
      × (is_nan c.process_baseline_alpha ≡ false)

  has_nan-Numbers : (c : Config F) → has_nan c ≡ false → Numbers c
  has_nan-Numbers c h = (
    ground arith,
    ground arith,
    ground arith,
    ground arith,
    ground arith,
    ground arith,
    ground arith,
  )

  corrected-IsValid :
      (c : Config F)
      → is_safe_absolute_path (take 255 dir) ≡ true
      → Numbers c
      → IsValid (corrected dir c)
  corrected-IsValid c safe (n1, n2, n3, n4, n5, n6, n7) = record {
    cpu_delta =
        reset-Within laws 1 10 10 1 100 1 c.cpu_delta_threshold_pct (omega arith) (omega arith)
          (omega arith) (omega arith) (omega arith) n1;
    new_process =
        reset-Within laws 1 10 5 1 100 1 c.new_process_threshold_pct (omega arith) (omega arith)
          (omega arith) (omega arith) (omega arith) n2;
    mem_drop =
        reset_ℕ-Within 1024 (1024 * 1024 * 1024) (512 * 1024) c.mem_drop_threshold_kib
          (omega arith, omega arith);
    mem_pressure =
        reset-Within laws 50 1 90 1 100 1 c.mem_pressure_threshold_pct (omega arith) (omega arith)
          (omega arith) (omega arith) (omega arith) n3;
    swap_spike =
        reset_ℕ-Within 1024 (1024 * 1024 * 1024) (256 * 1024) c.swap_spike_threshold_kib
          (omega arith, omega arith);
    cooldown =
        reset-Within laws 1 10 5 1 300 1 c.cooldown_seconds (omega arith) (omega arith)
          (omega arith) (omega arith) (omega arith) n4;
    sampling =
        reset-Within laws 1 10 1 1 10 1 c.sampling_interval_seconds (omega arith) (omega arith)
          (omega arith) (omega arith) (omega arith) n5;
    capacity = reset_ℕ-Within 10 600 60 c.ring_buffer_capacity (omega arith, omega arith);
    context = (ground arith, ground arith);
    context_fits = ground arith;
    tracked = reset_ℕ-Within 10 1024 512 c.max_processes_tracked (omega arith, omega arith);
    top = (ground arith, ground arith);
    top_fits = ground arith;
    directory = safe_directory-Allowed dir c.output_directory safe;
    detection = ground arith;
    memory_alpha =
        reset-Within laws 1 100 2 10 9 10 c.memory_baseline_alpha (omega arith) (omega arith)
          (omega arith) (omega arith) (omega arith) n6;
    process_alpha =
        reset-Within laws 1 100 3 10 9 10 c.process_baseline_alpha (omega arith) (omega arith)
          (omega arith) (omega arith) (omega arith) n7;
    max_age = reset_ℕ-Within 1 365 30 c.log_max_age_days (omega arith, omega arith);
    max_count = reset_ℕ-Within 1 10000 100 c.log_max_count (omega arith, omega arith);
    max_size =
        reset_ℕ-Within 1 (100 * 1024) 512 c.log_max_total_size_mib (omega arith, omega arith);
    interval = reset_ℕ-Within 1 (24 * 60) 60 c.cleanup_interval_minutes (omega arith, omega arith);
  }

  pub defaults-IsValid :
      is_safe_absolute_path (take 255 dir) ≡ true → IsValid {F = F} (config_init_defaults dir)
  defaults-IsValid safe = record {
    cpu_delta =
        Within-literal laws 1 10 10 1 100 1 (omega arith) (omega arith) (omega arith) (omega arith)
          (omega arith);
    new_process =
        Within-literal laws 1 10 5 1 100 1 (omega arith) (omega arith) (omega arith) (omega arith)
          (omega arith);
    mem_drop = (omega arith, omega arith);
    mem_pressure =
        Within-literal laws 50 1 90 1 100 1 (omega arith) (omega arith) (omega arith) (omega arith)
          (omega arith);
    swap_spike = (omega arith, omega arith);
    cooldown =
        Within-literal laws 1 10 5 1 300 1 (omega arith) (omega arith) (omega arith) (omega arith)
          (omega arith);
    sampling =
        Within-literal laws 1 10 1 1 10 1 (omega arith) (omega arith) (omega arith) (omega arith)
          (omega arith);
    capacity = (omega arith, omega arith);
    context = (omega arith, omega arith);
    context_fits = omega arith;
    tracked = (omega arith, omega arith);
    top = (omega arith, omega arith);
    top_fits = omega arith;
    directory = inr safe;
    detection = refl;
    memory_alpha =
        Within-literal laws 1 100 2 10 9 10 (omega arith) (omega arith) (omega arith) (omega arith)
          (omega arith);
    process_alpha =
        Within-literal laws 1 100 3 10 9 10 (omega arith) (omega arith) (omega arith) (omega arith)
          (omega arith);
    max_age = (omega arith, omega arith);
    max_count = (omega arith, omega arith);
    max_size = (omega arith, omega arith);
    interval = (omega arith, omega arith);
  }

  -- Whatever the settings are, `config_validate` leaves settings that are all within their bounds:
  -- every double is a number within its range, every count within its range, the context fits the
  -- ring buffer, the processes stored fit those tracked, the directory is empty or passes the path
  -- check, and some detection is enabled. It needs that the build's default directory passes the
  -- path check, and the laws of the order of doubles.
  pub validate-IsValid :
      (c : Config F) → is_safe_absolute_path (take 255 dir) ≡ true → IsValid (validate dir c).1
  unfolding validate
  validate-IsValid c safe = elim (Bool-cases (has_nan c)) [
    | inl nan ↦
        let e : has_nan (corrected dir c) ≡ true = ground (arith, has_nan-corrected c) in
        rw e (defaults-IsValid safe)
    | inr numbers ↦
        let e : has_nan (corrected dir c) ≡ false = ground (arith, has_nan-corrected c) in
        rw e (corrected-IsValid c safe (has_nan-Numbers c numbers))
  ]
