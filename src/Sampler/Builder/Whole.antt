-- ===== src/Sampler/Builder/Whole.antt =====
-- What a collected snapshot has.
use spiketrace.Prelude.{
  ℕ, zero, suc, ◌≤◌, ◌≡◌, refl, sym, ap, Option, List, [], ◌∷◌, map, arith, length, take, All,
  Bytes, Bool-cases, inl, inr,
}
use spiketrace.Status.{ok, is_ok}
use spiketrace.Double.{Double, IsOrdered}
use spiketrace.Snapshot.{ProcSample, ProcSnapshot, CpuSnapshot}
use spiketrace.Sorting.{qsort, length-qsort}
use spiketrace.Sampler.Jiffies.{cpu_read_jiffies}
use spiketrace.Sampler.Jiffies.Usage.{IsPercentage, cpu_calc_usage_pct_batch_bounds}
use spiketrace.Sampler.Processes.Samples.{
  ProcContext, no_procs, compare_samples_by_cpu, compare_samples_by_rss,
}
use spiketrace.Sampler.Processes.Collect.Cases.{proc_collect_snapshot_cases}
use spiketrace.Sampler.Processes.Collect.{
  ProcFiles, copy_count, entry_of, conclude, samples_of, read_total_system_ticks,
  proc_collect_snapshot,
}
use spiketrace.Sampler.Builder.{Builder, Reading, cpu_part, snapshot_builder_collect}
use spiketrace.Sampler.Builder.Ready.{IsReady, Reached, Reached-IsReady}

module _ {F : Type 0} ⦃d : Double F⦄ where
  -- the counts of the two tables are those of their entries
  pub record IsCounted (procs : ProcSnapshot F) : Type 0 where
    pub entries : procs.valid_entry_count ≡ length procs.entries
    pub rss_entries : procs.valid_rss_count ≡ length procs.top_rss_entries
    pub same : procs.valid_entry_count ≡ procs.valid_rss_count
    pub few : procs.valid_entry_count ≤ 10

  length-listed :
      (files : ProcFiles) (n : ℕ) (samples : List (ProcSample F))
      → n ≤ length samples
      → length (map (entry_of files) (take n samples)) ≡ n
  length-listed files zero samples h = refl
  length-listed files (suc n) [] h = absurd (omega arith)
  length-listed files (suc n) (s ∷ samples) h = ap suc (length-listed files n samples (omega arith))

  conclude-IsCounted :
      (files : ProcFiles) (ctx : ProcContext F) (total : ℕ) (samples : List (ProcSample F))
      → IsCounted (conclude files ctx total samples).2
  unfolding conclude copy_count
  conclude-IsCounted files ctx total [] = record {
    entries = refl;
    rss_entries = refl;
    same = refl;
    few = omega arith;
  }
  conclude-IsCounted files ctx total (s ∷ samples) =
      let by_cpu = qsort compare_samples_by_cpu (s ∷ samples) in
      let by_rss = qsort compare_samples_by_rss by_cpu in
      let n = copy_count ctx (length (s ∷ samples)) in
      let fits : n ≤ length (s ∷ samples) = ground arith in
      let cpu_len = length-qsort compare_samples_by_cpu (s ∷ samples) in
      let rss_len = length-qsort compare_samples_by_rss by_cpu in
      record {
        entries = sym (length-listed files n by_cpu (omega (arith, fits, cpu_len)));
        rss_entries = sym (length-listed files n by_rss (omega (arith, fits, cpu_len, rss_len)));
        same = refl;
        few = ground arith;
      }

  none-IsCounted : IsCounted no_procs
  none-IsCounted = record { entries = refl; rss_entries = refl; same = refl; few = omega arith }

  proc_collect_snapshot-IsCounted :
      (files : ProcFiles) (ctx : ProcContext F) → IsCounted (proc_collect_snapshot files ctx).2
  proc_collect_snapshot-IsCounted files ctx =
      proc_collect_snapshot_cases (λ r. IsCounted r.2) files ctx none-IsCounted none-IsCounted
        (λ names.
          conclude-IsCounted files ctx (read_total_system_ticks files.cpu_lines)
            (samples_of files ctx names))

module _ {F : Type 0} ⦃d : Double F⦄ (laws : IsOrdered F) where
  pub record IsMeasured (cpu : CpuSnapshot F) : Type 0 where
    pub cores : cpu.valid_core_count ≡ length cpu.per_core_usage_pct
    pub few : cpu.valid_core_count ≤ 256
    pub usages : All (IsPercentage laws) cpu.per_core_usage_pct

  cpu_part-IsMeasured :
      (b : Builder F) (cpu_lines : Option (List Bytes))
      → IsReady b
      → IsMeasured (cpu_part b cpu_lines).1
  unfolding cpu_part
  cpu_part-IsMeasured b cpu_lines r =
      let curr = cpu_read_jiffies cpu_lines b.max_lines b.curr_jiffies in
      let (_, size, usages) =
        cpu_calc_usage_pct_batch_bounds laws b.prev_jiffies curr.1 b.num_cores b.per_core_usage
          r.some_core in
      elim (Bool-cases (is_ok curr.0)) [
        | inl fine ↦ rw fine (record { cores = sym size; few = r.few_cores; usages = usages })
        | inr bad ↦ rw bad (record { cores = refl; few = omega arith; usages = tt })
      ]

  -- `snapshot_builder_collect` on a builder that its operations have led to succeeds whatever /proc
  -- holds. The snapshot has the time of the call; its usages of cores are as many as it says, at
  -- most 256, each from 0 to 100 or NaN; its two tables of processes have as many entries as it
  -- says, the same number and at most 10. It needs the laws of the order of doubles.
  pub snapshot_builder_collect-IsMeasured :
      (reading : Reading) (b : Builder F)
      → Reached b
      → let (status, b', out) = snapshot_builder_collect reading b in
        (status ≡ ok)
        × (out.timestamp_monotonic_ns ≡ reading.now)
        × IsMeasured out.cpu
        × IsCounted out.procs
  unfolding snapshot_builder_collect
  snapshot_builder_collect-IsMeasured reading b reached = (
    refl,
    refl,
    cpu_part-IsMeasured b reading.cpu_lines (Reached-IsReady b reached),
    proc_collect_snapshot-IsCounted reading.procs (cpu_part b reading.cpu_lines).0.proc_ctx,
  )
