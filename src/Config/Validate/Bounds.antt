-- ===== src/Config/Validate/Bounds.antt =====
-- What `config_validate` guarantees of the settings.
use spiketrace.Prelude.{
  ℕ, ◌*◌, ◌<◌, ◌≤◌, ◌≡◌, ◌⊎◌, inl, inr, true, false, ◌||◌, [], arith, Bool-cases,
}
use spiketrace.Double.{Double, IsOrdered, is_nan}
use spiketrace.Config.Types.{Config}
use spiketrace.Config.Path.{is_safe_absolute_path}
use spiketrace.Config.Validate.{reset_ℕ, reset, no_detection}

abbrev pub Within_ℕ : ℕ → ℕ → ℕ → Type 0
Within_ℕ low high x = (low ≤ x) × (x ≤ high)

pub reset_ℕ-Within :
    (low high default x : ℕ)
    → Within_ℕ low high default
    → Within_ℕ low high (reset_ℕ low high default x)
reset_ℕ-Within low high default x w = (ground arith, ground arith)

pub reset_ℕ_self : (low high default x : ℕ) → Within_ℕ low high x → reset_ℕ low high default x ≡ x
reset_ℕ_self low high default x w = ground arith

module _ {F : Type 0} ⦃d : Double F⦄ where
  abbrev pub Within : F → F → F → Type 0
  Within low high x = (d.le low x ≡ true) × (d.le x high ≡ true)

  -- what the settings promise after the check; the numbers are those of the source
  pub record IsValid (c : Config F) : Type 0 where
    pub cpu_delta : Within (d.literal 1 10) (d.literal 100 1) c.cpu_delta_threshold_pct
    pub new_process : Within (d.literal 1 10) (d.literal 100 1) c.new_process_threshold_pct
    pub mem_drop : Within_ℕ 1024 (1024 * 1024 * 1024) c.mem_drop_threshold_kib
    pub mem_pressure : Within (d.literal 50 1) (d.literal 100 1) c.mem_pressure_threshold_pct
    pub swap_spike : Within_ℕ 1024 (1024 * 1024 * 1024) c.swap_spike_threshold_kib
    pub cooldown : Within (d.literal 1 10) (d.literal 300 1) c.cooldown_seconds
    pub sampling : Within (d.literal 1 10) (d.literal 10 1) c.sampling_interval_seconds
    pub capacity : Within_ℕ 10 600 c.ring_buffer_capacity
    pub context : Within_ℕ 1 60 c.context_snapshots_per_dump
    pub context_fits : c.context_snapshots_per_dump ≤ c.ring_buffer_capacity
    pub tracked : Within_ℕ 10 1024 c.max_processes_tracked
    pub top : Within_ℕ 1 50 c.top_processes_stored
    pub top_fits : c.top_processes_stored ≤ c.max_processes_tracked
    pub directory : (c.output_directory ≡ []) ⊎ (is_safe_absolute_path c.output_directory ≡ true)
    pub detection : no_detection c ≡ false
    pub memory_alpha : Within (d.literal 1 100) (d.literal 9 10) c.memory_baseline_alpha
    pub process_alpha : Within (d.literal 1 100) (d.literal 9 10) c.process_baseline_alpha
    pub max_age : Within_ℕ 1 365 c.log_max_age_days
    pub max_count : Within_ℕ 1 10000 c.log_max_count
    pub max_size : Within_ℕ 1 (100 * 1024) c.log_max_total_size_mib
    pub interval : Within_ℕ 1 (24 * 60) c.cleanup_interval_minutes

module _ {F : Type 0} ⦃d : Double F⦄ (laws : IsOrdered F) where
  -- a default is within its bounds
  pub Within-literal :
      (a b n m c e : ℕ)
      → 0 < b
      → 0 < m
      → 0 < e
      → a * m ≤ n * b
      → n * e ≤ c * m
      → Within (d.literal a b) (d.literal c e) (d.literal n m)
  Within-literal a b n m c e hb hm he low high =
      (laws.le-literal a b n m hb hm low, laws.le-literal n m c e hm he high)

  pub literal-eq : (n m : ℕ) → 0 < m → d.eq (d.literal n m) (d.literal n m) ≡ true
  literal-eq n m h = (laws.le-eq _ _ (laws.le-literal n m n m h h (omega arith))).0

  -- a number that passes the test is within the bounds
  Within-passes :
      (a b c e : ℕ) (x : F)
      → 0 < b
      → 0 < e
      → d.eq x x ≡ true
      → d.lt x (d.literal a b) ≡ false
      → d.lt (d.literal c e) x ≡ false
      → Within (d.literal a b) (d.literal c e) x
  Within-passes a b c e x hb he number low high =
      let x_le = laws.le-self-eq-eq x in
      let low_le = laws.le-literal a b a b hb hb (omega arith) in
      let high_le = laws.le-literal c e c e he he (omega arith) in
      (
        ground (arith, laws.lt-eq-not-le x (d.literal a b)),
        ground (arith, laws.lt-eq-not-le (d.literal c e) x),
      )

  -- a tested setting: its default is a number within the bounds
  pub reset-Within :
      (a b n m c e : ℕ) (x : F)
      → 0 < b
      → 0 < m
      → 0 < e
      → a * m ≤ n * b
      → n * e ≤ c * m
      → is_nan x ≡ false
      → Within
          (d.literal a b)
          (d.literal c e)
          (reset (d.literal a b) (d.literal c e) (d.literal n m) x)
  reset-Within a b n m c e x hb hm he low high number =
      elim (Bool-cases (d.lt x (d.literal a b) || d.lt (d.literal c e) x)) [
        | inl out ↦ rw out (Within-literal a b n m c e hb hm he low high)
        | inr passes ↦
            rw passes (Within-passes a b c e x hb he (ground arith) (ground arith) (ground arith))
      ]

  -- the test leaves a NaN alone, and makes none
  pub is_nan-reset :
      (a b n m c e : ℕ) (x : F)
      → 0 < m
      → is_nan (reset (d.literal a b) (d.literal c e) (d.literal n m) x) ≡ is_nan x
  is_nan-reset a b n m c e x hm = elim (Bool-cases (is_nan x)) [
    | inl nan ↦ ground (
      arith,
      laws.le_of_lt x (d.literal a b),
      laws.le-eq x (d.literal a b),
      laws.le_of_lt (d.literal c e) x,
      laws.le-eq (d.literal c e) x,
    )
    | inr number ↦ ground (arith, literal-eq n m hm)
  ]

  pub Within-reset : (low high default x : F) → Within low high x → reset low high default x ≡ x
  Within-reset low high default x (p, q) = ground (
    arith,
    laws.le-eq low x p,
    laws.le-eq x high q,
    laws.le-self-eq-eq x,
    laws.le-self-eq-eq low,
    laws.le-self-eq-eq high,
    laws.lt-eq-not-le x low,
    laws.lt-eq-not-le high x,
  )
