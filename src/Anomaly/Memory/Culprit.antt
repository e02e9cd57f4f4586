-- ===== src/Anomaly/Memory/Culprit.antt =====
-- `top_rss`: the process that a memory report names.
use mathlib.Core.List.{Mem, mem-cons_self, mem-cons_of_mem}
use spiketrace.Prelude.{
  ℕ, ◌≤◌, ◌<◌, ◌≡◌, refl, inl, inr, true, ◌&&◌, Option, none, some, List, [], ◌∷◌, arith, ltb, All,
  Bool-cases,
}
use spiketrace.Snapshot.{ProcSample}
use spiketrace.Anomaly.Memory.{top_rss}

module _ {F : Type 0} where
  -- The named process: a valid one with the largest resident set, or none if all valid ones have 0.
  abbrev pub AtMost : ℕ → ProcSample F → Type 0
  AtMost n s = s.valid ≡ true → s.rss_kib ≤ n

  abbrev pub IsTop : List (ProcSample F) → List (ProcSample F) → Option (ProcSample F) → Type 0
  IsTop all seen none = All (AtMost 0) seen
  IsTop all seen (some s) =
      Mem s all × (s.valid ≡ true) × (0 < s.rss_kib) × All (AtMost s.rss_kib) seen

  -- what the loop knows
  abbrev Knows : List (ProcSample F) → ℕ → Option (ProcSample F) → Type 0
  Knows all max_rss none = max_rss ≡ 0
  Knows all max_rss (some s) =
      Mem s all × (s.valid ≡ true) × (0 < s.rss_kib) × (max_rss ≡ s.rss_kib)

  -- what it will know at the end about the samples to go, the largest so far included
  abbrev Ends : List (ProcSample F) → List (ProcSample F) → ℕ → Option (ProcSample F) → Type 0
  Ends all samples max_rss none = (max_rss ≡ 0) × All (AtMost 0) samples
  Ends all samples max_rss (some s) =
      Mem s all
      × (s.valid ≡ true)
      × (0 < s.rss_kib)
      × (max_rss ≤ s.rss_kib)
      × All (AtMost s.rss_kib) samples

  Ends-cons :
      (all : List (ProcSample F)) (s : ProcSample F) (samples : List (ProcSample F)) (m m' : ℕ)
      (top : Option (ProcSample F))
      → m ≤ m'
      → AtMost m' s
      → Ends all samples m' top
      → Ends all (s ∷ samples) m top
  Ends-cons all s samples m m' none le at (e, o) = (omega arith, (λ v. omega (arith, at v), o))
  Ends-cons all s samples m m' (some t) le at (here, v, p, q, o) =
      (here, v, p, omega arith, (λ w. omega (arith, at w), o))

  Ends-done :
      (all : List (ProcSample F)) (m : ℕ) (top : Option (ProcSample F))
      → Knows all m top
      → Ends all [] m top
  Ends-done all m none e = (e, tt)
  Ends-done all m (some s) (here, v, p, e) = (here, v, p, omega arith, tt)

  top_rss-Ends :
      (all samples : List (ProcSample F)) (m : ℕ) (top : Option (ProcSample F))
      → ((s : ProcSample F) → Mem s samples → Mem s all)
      → Knows all m top
      → Ends all samples m (top_rss samples m top)
  unfolding top_rss
  top_rss-Ends all [] m top inside k = Ends-done all m top k
  top_rss-Ends all (s ∷ samples) m top inside k = elim (Bool-cases (s.valid && ltb m s.rss_kib)) [
    | inl better ↦ rw better (
        Ends-cons all s samples m s.rss_kib (top_rss samples s.rss_kib (some s)) (ground arith)
          (λ _. omega arith)
          (top_rss-Ends all samples s.rss_kib (some s) (λ r h. inside r (mem-cons_of_mem s h))
            (inside s mem-cons_self, ground arith, ground arith, refl)))
    | inr worse ↦ rw worse (
        Ends-cons all s samples m m (top_rss samples m top) (omega arith) (λ v. ground arith)
          (top_rss-Ends all samples m top (λ r h. inside r (mem-cons_of_mem s h)) k))
  ]

  Ends-IsTop :
      (samples : List (ProcSample F)) (top : Option (ProcSample F))
      → Ends samples samples 0 top
      → IsTop samples samples top
  Ends-IsTop samples none (_, o) = o
  Ends-IsTop samples (some s) (here, v, p, _, o) = (here, v, p, o)

  pub top_rss-IsTop :
      (samples : List (ProcSample F)) → IsTop samples samples (top_rss samples 0 none)
  top_rss-IsTop samples =
      Ends-IsTop samples (top_rss samples 0 none)
        (top_rss-Ends samples samples 0 none (λ s h. h) refl)
