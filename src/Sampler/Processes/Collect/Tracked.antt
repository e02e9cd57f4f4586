-- ===== src/Sampler/Processes/Collect/Tracked.antt =====
-- The invariant of the samples that are kept between two rounds.
use spiketrace.Prelude.{
  ℕ, zero, suc, ◌≤◌, ◌≡◌, refl, ap, List, [], ◌∷◌, arith, ◌==◌, length, take, take-all, All, Bytes,
}
use spiketrace.Double.{Double}
use spiketrace.Snapshot.{ProcSample}
use spiketrace.Sorting.{qsort, length-qsort, All-qsort}
use spiketrace.Sampler.Processes.Samples.{
  max_tracked, ProcContext, compare_samples_by_cpu, compare_samples_by_rss, proc_context_init,
}
use spiketrace.Sampler.Processes.Collect.Cases.{proc_collect_snapshot_cases}
use spiketrace.Sampler.Processes.Collect.{
  ProcFiles, conclude, ticks_since, samples_of, read_total_system_ticks, proc_collect_snapshot,
}
use spiketrace.Sampler.Processes.Collect.Table.{IsTracked, IsTable, scan_dir-IsTable}

module _ {F : Type 0} ⦃d : Double F⦄ where
  pub record IsValid (ctx : ProcContext F) : Type 0 where
    pub counted : ctx.count ≡ length ctx.samples
    pub bounded : ctx.count ≤ 512
    pub tracked : All IsTracked ctx.samples

  All-take : (n : ℕ) (xs : List (ProcSample F)) → All IsTracked xs → All IsTracked (take n xs)
  All-take zero xs h = tt
  All-take (suc n) [] h = tt
  All-take (suc n) (x ∷ xs) (h, hs) = (h, All-take n xs hs)

  conclude-IsValid :
      (files : ProcFiles) (ctx : ProcContext F) (total_ticks : ℕ) (samples : List (ProcSample F))
      → IsValid ctx
      → IsTable samples
      → IsValid (conclude files ctx total_ticks samples).1
  unfolding conclude
  conclude-IsValid files ctx total_ticks [] valid t = record {
    counted = valid.counted;
    bounded = valid.bounded;
    tracked = valid.tracked;
  }
  conclude-IsValid files ctx total_ticks (s ∷ samples) valid (len, ps) =
      let by_cpu = qsort compare_samples_by_cpu (s ∷ samples) in
      let by_rss = qsort compare_samples_by_rss by_cpu in
      let cpu_len = length-qsort compare_samples_by_cpu (s ∷ samples) in
      let rss_len = length-qsort compare_samples_by_rss by_cpu in
      let kept =
        All-qsort IsTracked compare_samples_by_rss by_cpu
          (All-qsort IsTracked compare_samples_by_cpu (s ∷ samples) ps) in
      let full = ap length (take-all max_tracked by_rss (omega (arith, cpu_len, rss_len, len))) in
      record {
        counted = ground (arith, full, cpu_len, rss_len, len);
        bounded = ground (arith, len);
        tracked = All-take max_tracked by_rss kept;
      }

  scanned-IsValid :
      (files : ProcFiles) (ctx : ProcContext F) (names : List Bytes)
      → IsValid ctx
      → IsValid
          (conclude files ctx
            (read_total_system_ticks files.cpu_lines)
            (samples_of files ctx names)).1
  scanned-IsValid files ctx names valid =
      let total = read_total_system_ticks files.cpu_lines in
      conclude-IsValid files ctx total (samples_of files ctx names) valid (
        scan_dir-IsTable files ctx (ctx.last_total_ticks == 0) (ticks_since ctx total)
          (All-take ctx.count ctx.samples valid.tracked) names [] (omega arith, tt))

  -- A context is valid if its count is that of its samples, at most 512, and if each sample is
  -- marked valid, has a positive process number, has been seen in 1 to 255 rounds, and is new
  -- exactly if in one. A new context is valid, and `proc_collect_snapshot` keeps a context valid
  -- whatever /proc holds, the failures of the allocation and of the directory included.
  pub proc_collect_snapshot-IsValid :
      (files : ProcFiles) (ctx : ProcContext F)
      → IsValid proc_context_init × (IsValid ctx → IsValid (proc_collect_snapshot files ctx).1)
  unfolding proc_context_init
  proc_collect_snapshot-IsValid files ctx = (
    record { counted = refl; bounded = omega arith; tracked = tt },
    λ valid.
        proc_collect_snapshot_cases (λ r. IsValid r.1) files ctx valid valid
          (λ names. scanned-IsValid files ctx names valid),
  )
