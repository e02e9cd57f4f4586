-- ===== src/Sampler/Jiffies/Usage.antt =====
-- The usage of a core is a percentage.
use spiketrace.Prelude.{
  ℕ, zero, suc, ◌+◌, ◌<◌, ◌≤◌, ◌≡◌, ◌⊎◌, ◌∙◌, refl, true, false, not, List, ltb, ◌==◌, get_or, All,
  arith, Bool-cases, inl, inr, length, ap,
}
use spiketrace.Prelude.Int.{sub_u64}
use spiketrace.Status.{ok}
use spiketrace.Double.{Double, IsOrdered, nought}
use spiketrace.Sampler.Jiffies.{
  Jiffies, no_jiffies, total_jiffies, idle_jiffies, hundred, core_usage, usage_loop,
  cpu_calc_usage_pct_batch,
}

module _ {F : Type 0} ⦃d : Double F⦄ (laws : IsOrdered F) where
  -- from 0 to 100, unless it is no number
  abbrev pub IsPercentage : F → Type 0
  IsPercentage u = (d.eq u u ≡ false) ⊎ ((d.le nought u ≡ true) × (d.le u hundred ≡ true))

  le_literal : (a b : ℕ) → a ≤ b → d.le (d.literal a 1) (d.literal b 1) ≡ true
  le_literal a b h = laws.le-literal a 1 b 1 (omega arith) (omega arith) (omega arith)

  inside : (u : F) → d.lt u nought ≡ false → d.lt hundred u ≡ false → IsPercentage u
  inside u low high = elim (Bool-cases (d.eq u u)) [
    | inr nan ↦ inl nan
    | inl number ↦
        let self = laws.le-self-eq-eq u in
        let zero_self = le_literal 0 0 (omega arith) in
        let top_self = le_literal 100 100 (omega arith) in
        let below : d.lt u nought ≡ not (d.le nought u) =
          laws.lt-eq-not-le u nought (self ∙ number) zero_self in
        let above : d.lt hundred u ≡ not (d.le u hundred) =
          laws.lt-eq-not-le hundred u top_self (self ∙ number) in
        inr (ground (arith, below), ground (arith, above))
  ]

  core_usage-IsPercentage : (old new : Jiffies) → IsPercentage (core_usage old new)
  unfolding core_usage
  core_usage-IsPercentage old new =
      let low = le_literal 0 0 (omega arith) in
      let top = le_literal 100 100 (omega arith) in
      let both = le_literal 0 100 (omega arith) in
      let total_delta = sub_u64 (total_jiffies new) (total_jiffies old) in
      let idle_delta = sub_u64 (idle_jiffies new) (idle_jiffies old) in
      let usage : F =
        d.mul hundred (d.sub (d.literal 1 1) (d.div (d.of_ℕ idle_delta) (d.of_ℕ total_delta))) in
      elim (Bool-cases (total_delta == 0)) [
        | inl still ↦ rw still (inr (low, both))
        | inr moved ↦ elim (Bool-cases (ltb total_delta idle_delta)) [
          | inl odd ↦ rw moved (rw odd (inr (low, both)))
          | inr sane ↦ elim (Bool-cases (d.lt usage nought)) [
            | inl below ↦ rw moved (rw sane (rw below (inr (low, both))))
            | inr not_below ↦ elim (Bool-cases (d.lt hundred usage)) [
              | inl above ↦ rw moved (rw sane (rw not_below (rw above (inr (both, top)))))
              | inr not_above ↦
                  rw moved
                    (rw sane (rw not_below (rw not_above (inside usage not_below not_above))))
            ]
          ]
        ]
      ]

  usage_loop-IsPercentage :
      (old new : List Jiffies) (i left : ℕ) → All IsPercentage (usage_loop old new i left)
  unfolding usage_loop
  usage_loop-IsPercentage old new i zero = tt
  usage_loop-IsPercentage old new i (suc left) = (
    core_usage-IsPercentage (get_or old (i + 1) no_jiffies) (get_or new (i + 1) no_jiffies),
    usage_loop-IsPercentage old new (i + 1) left,
  )

  length-usage_loop :
      (old new : List Jiffies) (i left : ℕ) → length {A = F} (usage_loop old new i left) ≡ left
  unfolding usage_loop
  length-usage_loop old new i zero = refl
  length-usage_loop old new i (suc left) = ap suc (length-usage_loop old new (i + 1) left)

  -- `cpu_calc_usage_pct_batch` on at least one core succeeds, and gives for each core a usage from 0
  -- to 100, or NaN, whatever the two readings are, wrapped counters and idle times beyond the total
  -- included. It needs the laws of the order of doubles.
  pub cpu_calc_usage_pct_batch_bounds :
      (old new : List Jiffies) (num_cores : ℕ) (out_usage : List F)
      → 0 < num_cores
      → let (status, usage) = cpu_calc_usage_pct_batch old new num_cores out_usage in
        (status ≡ ok) × (length usage ≡ num_cores) × All IsPercentage usage
  unfolding cpu_calc_usage_pct_batch
  cpu_calc_usage_pct_batch_bounds old new num_cores out_usage h =
      let some_core : (num_cores == 0) ≡ false = ground arith in
      rw some_core
        (refl, length-usage_loop old new 0 num_cores, usage_loop-IsPercentage old new 0 num_cores)
