-- ===== src/Sampler/Processes/Collect/Orders.antt =====
-- The two comparison functions of src/proc.c sort, by CPU usage and by resident memory.
use spiketrace.Prelude.{◌≤◌, ◌≡◌, ◌∙◌, true, false, List, arith, All, Bool-cases, inl, inr}
use spiketrace.Prelude.Int.{pos, leb_ℤ}
use spiketrace.Double.{Double, IsOrdered}
use spiketrace.Snapshot.{ProcSample}
use spiketrace.Sorting.{qsort, Sorted, Sorted-qsort}
use spiketrace.Sampler.Processes.Samples.{compare_samples_by_cpu, compare_samples_by_rss}

module _ {F : Type 0} ⦃d : Double F⦄ where
  -- a process whose usage is a number
  abbrev pub IsLive : ProcSample F → Type 0
  IsLive s = (s.valid ≡ true) × (d.eq s.cpu_pct s.cpu_pct ≡ true)

  abbrev pub Busier : ProcSample F → ProcSample F → Type 0
  Busier a b = d.le b.cpu_pct a.cpu_pct ≡ true

  abbrev pub Larger : ProcSample F → ProcSample F → Type 0
  Larger a b = b.rss_kib ≤ a.rss_kib

  module _ (laws : IsOrdered F) where
    not_lt-le : (a b : F) → d.eq a a ≡ true → d.eq b b ≡ true → d.lt a b ≡ false → d.le b a ≡ true
    not_lt-le a b p q h =
        let t = laws.lt-eq-not-le a b (laws.le-self-eq-eq a ∙ p) (laws.le-self-eq-eq b ∙ q) in
        ground (arith, t)

    not_below-Busier :
        (f g : ProcSample F)
        → IsLive f
        → IsLive g
        → leb_ℤ (compare_samples_by_cpu f g) (pos 0) ≡ true
        → Busier f g
    unfolding compare_samples_by_cpu
    not_below-Busier f g (v, p) (w, q) h = elim (Bool-cases (d.lt f.cpu_pct g.cpu_pct)) [
      | inr most ↦ not_lt-le f.cpu_pct g.cpu_pct p q most
      | inl lower ↦ absurd (ground arith)
    ]

    below-Busier :
        (f g : ProcSample F)
        → IsLive f
        → IsLive g
        → leb_ℤ (compare_samples_by_cpu f g) (pos 0) ≡ false
        → Busier g f
    unfolding compare_samples_by_cpu
    below-Busier f g (v, p) (w, q) h = elim (Bool-cases (d.lt g.cpu_pct f.cpu_pct)) [
      | inr most ↦ not_lt-le g.cpu_pct f.cpu_pct q p most
      | inl lower ↦ elim (Bool-cases (d.lt f.cpu_pct g.cpu_pct)) [
        | inl more ↦ laws.le_of_lt f.cpu_pct g.cpu_pct more
        | inr less ↦ absurd (ground arith)
      ]
    ]

    pub by_cpu-Sorted :
        (samples : List (ProcSample F))
        → All IsLive samples
        → Sorted Busier (qsort compare_samples_by_cpu samples)
    by_cpu-Sorted =
        Sorted-qsort IsLive compare_samples_by_cpu Busier not_below-Busier below-Busier
          (λ f g h a b. laws.le_trans h.cpu_pct g.cpu_pct f.cpu_pct b a)

    not_below-Larger :
        (f g : ProcSample F)
        → IsLive f
        → IsLive g
        → leb_ℤ (compare_samples_by_rss f g) (pos 0) ≡ true
        → Larger f g
    unfolding compare_samples_by_rss
    not_below-Larger f g (v, p) (w, q) h = ground arith

    below-Larger :
        (f g : ProcSample F)
        → IsLive f
        → IsLive g
        → leb_ℤ (compare_samples_by_rss f g) (pos 0) ≡ false
        → Larger g f
    unfolding compare_samples_by_rss
    below-Larger f g (v, p) (w, q) h = ground arith

    pub by_rss-Sorted :
        (samples : List (ProcSample F))
        → All IsLive samples
        → Sorted Larger (qsort compare_samples_by_rss samples)
    by_rss-Sorted =
        Sorted-qsort IsLive compare_samples_by_rss Larger not_below-Larger below-Larger
          (λ f g h a b. omega arith)
