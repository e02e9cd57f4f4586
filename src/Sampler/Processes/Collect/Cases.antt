-- ===== src/Sampler/Processes/Collect/Cases.antt =====
-- The ends of `proc_collect_snapshot`: two errors, and the table of a scan.
use spiketrace.Prelude.{true, false, Option, none, some, List, Bytes, if◌then◌else◌}
use spiketrace.Status.{Status, err_alloc_failed, err_proc_open_dir}
use spiketrace.Double.{Double}
use spiketrace.Snapshot.{ProcSnapshot}
use spiketrace.Sampler.Processes.Samples.{ProcContext, no_procs}
use spiketrace.Sampler.Processes.Collect.{
  ProcFiles, conclude, collect, samples_of, read_total_system_ticks, proc_collect_snapshot,
}

module _ {F : Type 0} ⦃d : Double F⦄ (P : Status × ProcContext F × ProcSnapshot F → Type 0)
    (files : ProcFiles) (ctx : ProcContext F) where
  collect_cases :
      (o : Option (List Bytes))
      → P (err_proc_open_dir, ctx, no_procs)
      → ((names : List Bytes)
          → P (
              conclude files ctx
                (read_total_system_ticks files.cpu_lines)
                (samples_of files ctx names)))
      → P (collect files ctx o)
  collect_cases none closed scanned = closed
  collect_cases (some names) closed scanned = scanned names

  pub proc_collect_snapshot_cases :
      P (err_alloc_failed, ctx, no_procs)
      → P (err_proc_open_dir, ctx, no_procs)
      → ((names : List Bytes)
          → P (
              conclude files ctx
                (read_total_system_ticks files.cpu_lines)
                (samples_of files ctx names)))
      → P (proc_collect_snapshot files ctx)
  unfolding proc_collect_snapshot
  proc_collect_snapshot_cases full closed scanned =
      elim files.allocated
        as (λ b.
          P (if b then collect files ctx files.names else (err_alloc_failed, ctx, no_procs))) [
            | true ↦ collect_cases files.names closed scanned
            | false ↦ full
          ]
