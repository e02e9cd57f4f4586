-- ===== src/Sampler/Processes/Collect/Table.antt =====
-- The table of a round holds tracked samples only, at most 512.
use spiketrace.Prelude.{
  ℕ, zero, suc, ◌-◌, ◌≤◌, ◌<◌, ◌≡◌, refl, Bool, true, ◌&&◌, Option, none, some, List, [], ◌∷◌, ◌++◌,
  arith, ltb, ◌==◌, length, length-append, length-set, get_or, set, take, All, Bytes, Bool-cases,
  inl, inr, ◌>>=◌,
}
use spiketrace.Prelude.Int.{ℤ, pos, ltb_ℤ, eqb_ℤ}
use spiketrace.Double.{Double}
use spiketrace.Snapshot.{ProcSample}
use spiketrace.Sorting.{length-qsort, All-qsort}
use spiketrace.Sampler.Processes.Parse.{Stat, parse_proc_stat, parse_proc_statm}
use spiketrace.Sampler.Processes.Samples.{
  max_tracked, comm_size, ProcContext, compare_samples_by_cpu, find_sample, find_prev_sample,
  next_count, sample_from, replace_worst, place,
}
use spiketrace.Sampler.Processes.Collect.{ProcFiles, name_pid, read_sample, place_some, scan_dir}

name_pid-pos : (d_name : Bytes) (pid : ℕ) → name_pid d_name ≡ some pid → 0 < pid
name_pid-pos [] pid h = ground arith
name_pid-pos (c ∷ cs) pid h = ground arith

module _ {F : Type 0} ⦃d : Double F⦄ where
  -- a sample of a running process, whose number of rounds is 1 exactly when it is new
  abbrev pub IsTracked : ProcSample F → Type 0
  IsTracked s =
      (s.valid ≡ true)
      × (ltb_ℤ (pos 0) s.pid ≡ true)
      × (1 ≤ s.sample_count)
      × (s.sample_count ≤ 255)
      × (s.is_new ≡ (s.sample_count == 1))

  -- a previous sample counts, unless there is none
  abbrev IsKnown : Option (ProcSample F) → Type 0
  IsKnown none = Unit {0}
  IsKnown (some prev) = IsTracked prev

  find_sample-IsKnown :
      (samples : List (ProcSample F)) (pid : ℤ)
      → All IsTracked samples
      → IsKnown (find_sample samples pid)
  unfolding find_sample
  find_sample-IsKnown [] pid h = tt
  find_sample-IsKnown (s ∷ samples) pid (h, hs) = elim (Bool-cases (s.valid && eqb_ℤ s.pid pid)) [
    | inl here ↦ rw here h
    | inr behind ↦ rw behind (find_sample-IsKnown samples pid hs)
  ]

  sample_from-IsTracked :
      (ctx : ProcContext F) (first : Bool) (delta pid rss : ℕ) (stat : Stat)
      (prev : Option (ProcSample F))
      → 0 < pid
      → IsKnown prev
      → IsTracked (sample_from ctx first delta pid stat rss prev)
  unfolding sample_from next_count
  sample_from-IsTracked ctx first delta pid rss stat none h k =
      (refl, ground arith, omega arith, omega arith, refl)
  sample_from-IsTracked ctx first delta pid rss stat (some prev) h (v, p, low, high, new) =
      (refl, ground arith, ground arith, ground arith, ground arith)

  All-set :
      (xs : List (ProcSample F)) (i : ℕ) (x : ProcSample F)
      → IsTracked x
      → All IsTracked xs
      → All IsTracked (set xs i x)
  All-set [] i x p ps = tt
  All-set (y ∷ ys) zero x p (q, qs) = (p, qs)
  All-set (y ∷ ys) (suc i) x p (q, qs) = (q, All-set ys i x p qs)

  All-snoc :
      (xs : List (ProcSample F)) (x : ProcSample F)
      → IsTracked x
      → All IsTracked xs
      → All IsTracked (xs ++ x ∷ [])
  All-snoc [] x p ps = (p, tt)
  All-snoc (y ∷ ys) x p (q, qs) = (q, All-snoc ys x p qs)

  -- what the table of a round has
  abbrev pub IsTable : List (ProcSample F) → Type 0
  IsTable samples = (length samples ≤ 512) × All IsTracked samples

  replace_worst-IsTable :
      (s : ProcSample F) (samples : List (ProcSample F))
      → IsTracked s
      → IsTable samples
      → IsTable (replace_worst s samples)
  unfolding replace_worst
  replace_worst-IsTable s samples p (len, ps) =
      let put = set samples (max_tracked - 1) s in
      elim (Bool-cases (d.lt (get_or samples (max_tracked - 1) s).cpu_pct s.cpu_pct)) [
        | inl better ↦ rw better (
          omega (
            arith,
            length-qsort compare_samples_by_cpu put,
            length-set samples (max_tracked - 1) s,
            len,
          ),
          All-qsort IsTracked compare_samples_by_cpu put (All-set samples (max_tracked - 1) s p ps),
        )
        | inr worse ↦ rw worse (len, ps)
      ]

  place-IsTable :
      (s : ProcSample F) (samples : List (ProcSample F))
      → IsTracked s
      → IsTable samples
      → IsTable (place s samples)
  unfolding place
  place-IsTable s samples p (len, ps) = elim (Bool-cases (ltb (length samples) max_tracked)) [
    | inl room ↦ rw room (ground (arith, length-append samples (s ∷ [])), All-snoc samples s p ps)
    | inr full ↦ rw full (replace_worst-IsTable s samples p (len, ps))
  ]

  module _ (files : ProcFiles) (ctx : ProcContext F) (first : Bool) (delta : ℕ)
      (known : All IsTracked (take ctx.count ctx.samples)) where
    read_sample-IsKnown : (d_name : Bytes) → IsKnown (read_sample files ctx first delta d_name)
    unfolding read_sample
    read_sample-IsKnown d_name =
        elim (name_pid d_name)
            as (λ o.
              name_pid d_name ≡ o
              → IsKnown (
                  o >>= λ pid. do
                    stat ← parse_proc_stat (files.stat_of pid) comm_size
                    rss_kib ← parse_proc_statm files.page_size (files.statm_of pid)
                    some (
                        sample_from ctx first delta pid stat rss_kib
                          (find_prev_sample ctx (pos pid))))) [
                            | none ↦ λ e. tt
                            | some pid ↦ λ e.
                                elim (parse_proc_stat (files.stat_of pid) comm_size)
                                  as (λ o. IsKnown (
                                    o >>= λ stat. do
                                      rss_kib ←
                                          parse_proc_statm files.page_size (files.statm_of pid)
                                      some (
                                          sample_from ctx first delta pid stat rss_kib
                                            (find_prev_sample ctx (pos pid))))) [
                                              | none ↦ tt
                                              | some stat ↦
                                                  elim (parse_proc_statm files.page_size
                                                      (files.statm_of pid))
                                                    as (λ o. IsKnown (
                                                      o >>= λ rss. some (
                                                        sample_from ctx first delta pid stat rss
                                                          (find_prev_sample ctx (pos pid))))) [
                                                            | none ↦ tt
                                                            | some rss ↦
                                                              sample_from-IsTracked ctx first delta
                                                              pid rss stat
                                                              (find_prev_sample ctx (pos pid))
                                                              (name_pid-pos d_name pid e)
                                                              (find_sample-IsKnown
                                                              (take ctx.count ctx.samples) (pos pid)
                                                              known)
                                                          ]
                                            ]
                          ]
          refl

    place_some-IsTable :
        (o : Option (ProcSample F)) (samples : List (ProcSample F))
        → IsKnown o
        → IsTable samples
        → IsTable (place_some files ctx first delta o samples)
    place_some-IsTable none samples k t = t
    place_some-IsTable (some s) samples k t = place-IsTable s samples k t

    pub scan_dir-IsTable :
        (names : List Bytes) (samples : List (ProcSample F))
        → IsTable samples
        → IsTable (scan_dir files ctx first delta names samples)
    unfolding scan_dir
    scan_dir-IsTable [] samples t = t
    scan_dir-IsTable (d_name ∷ names) samples t =
        scan_dir-IsTable names
          (place_some files ctx first delta (read_sample files ctx first delta d_name) samples)
          (place_some-IsTable (read_sample files ctx first delta d_name) samples
            (read_sample-IsKnown d_name) t)
