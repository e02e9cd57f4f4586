-- ===== src/Sampler/Builder.antt =====
-- src/snapshot_builder.c and include/snapshot_builder.h: a snapshot put together, whose parts may
-- be missing. The arrays of readings have 257 entries, the usages are those of the machine's cores.
pub mod Sizes
pub mod Ready
pub mod Whole
use spiketrace.Prelude.{
  ℕ, zero, suc, ◌+◌, Bool, true, false, ◌||◌, Option, none, some, List, [], ◌∷◌, ltb, leb, ◌==◌,
  if◌then◌else◌, get_or, replicate, Bytes,
}
use spiketrace.Prelude.Int.{ℤ, pos, leb_ℤ, ltb_ℤ, pos_part, sub_u64}
use spiketrace.Status.{Status, ok, is_ok, err_null_pointer, err_invalid_param}
use spiketrace.Double.{Double, nought}
use spiketrace.Snapshot.{
  max_procs, max_cores, CpuSnapshot, MemSnapshot, ProcSnapshot, ProcSample, Snapshot,
}
use spiketrace.Sampler.Jiffies.{
  Jiffies, no_jiffies, hundred, total_jiffies, cpu_read_jiffies, cpu_calc_usage_pct_batch,
}
use spiketrace.Sampler.Meminfo.{Meminfo, no_meminfo, mem_read_kibibytes}
use spiketrace.Sampler.Processes.Samples.{ProcContext, proc_context_init, proc_context_cleanup}
use spiketrace.Sampler.Processes.Collect.{ProcFiles, proc_collect_snapshot}

-- `snapshot_builder_t`
pub record Builder (F : Type 0) : Type 0 where
  pub prev_jiffies : List Jiffies
  pub curr_jiffies : List Jiffies
  pub per_core_usage : List F
  pub proc_ctx : ProcContext F
  pub num_cores : ℕ
  pub max_lines : ℕ

-- what the system answers in a round: the clock and the files
pub record Reading : Type 0 where
  pub now : ℕ
  pub cpu_lines : Option (List Bytes)
  pub mem_lines : Option (List Bytes)
  pub procs : ProcFiles

abbrev pub no_readings : List Jiffies
no_readings = replicate (max_cores + 1) no_jiffies

unfoldable pub mem_part : Status × Option Meminfo → MemSnapshot
mem_part (status, none) = record {
  total_ram_kib = 0;
  available_ram_kib = 0;
  free_ram_kib = 0;
  active_ram_kib = 0;
  inactive_ram_kib = 0;
  dirty_ram_kib = 0;
  slab_ram_kib = 0;
  swap_total_ram_kib = 0;
  swap_free_ram_kib = 0;
  shmem_ram_kib = 0;
}
mem_part (status, some read) =
    let mi = if is_ok status then read else no_meminfo in
    record {
      total_ram_kib = mi.total;
      available_ram_kib = mi.available;
      free_ram_kib = mi.free;
      active_ram_kib = mi.active;
      inactive_ram_kib = mi.inactive;
      dirty_ram_kib = mi.dirty;
      slab_ram_kib = mi.slab;
      swap_total_ram_kib = mi.swap_total;
      swap_free_ram_kib = mi.swap_free;
      shmem_ram_kib = mi.shmem;
    }

module _ {F : Type 0} ⦃d : Double F⦄ where
  -- a builder of zero bytes
  abbrev pub no_builder : Builder F
  no_builder = record {
    prev_jiffies = no_readings;
    curr_jiffies = no_readings;
    per_core_usage = [];
    proc_ctx = proc_context_cleanup;
    num_cores = 0;
    max_lines = 0;
  }

  abbrev pub cleanup_on : Builder F → Status → Builder F
  cleanup_on builder status =
      if is_ok status then builder else record builder { proc_ctx = proc_context_cleanup }

  -- a null builder is `none`
  unfoldable pub snapshot_builder_init :
      Option (List Bytes) → Option (Builder F) → ℤ → Status × Option (Builder F)
  snapshot_builder_init cpu_lines none num_cores = (err_null_pointer, none)
  snapshot_builder_init cpu_lines (some builder) num_cores =
      let lines = pos_part num_cores + 1 in
      let (status, jiffies) = cpu_read_jiffies cpu_lines lines no_readings in
      let started = record no_builder {
        prev_jiffies = jiffies;
        proc_ctx = proc_context_init;
        num_cores = pos_part num_cores;
        max_lines = lines;
      } in
      if leb_ℤ num_cores (pos 0) || ltb_ℤ (pos max_cores) num_cores
      then (err_invalid_param, some builder)
      else (status, some (cleanup_on started status))

  -- the sum of the loop
  unfoldable pub sum_from : F → List F → F
  sum_from sum [] = sum
  sum_from sum (u ∷ us) = sum_from (d.add sum u) us

  unfoldable pub iowait_pct : Jiffies → Jiffies → F
  iowait_pct old_total new_total =
      let total_delta = sub_u64 (total_jiffies new_total) (total_jiffies old_total) in
      let iowait_delta = sub_u64 new_total.iowait old_total.iowait in
      if ltb 0 total_delta
      then d.div (d.mul hundred (d.of_ℕ iowait_delta)) (d.of_ℕ total_delta)
      else nought

  abbrev pub no_cpu : CpuSnapshot F
  no_cpu = record {
    global_usage_pct = nought;
    iowait_pct = nought;
    per_core_usage_pct = [];
    valid_core_count = 0;
  }

  -- the CPU part, with the reading that is the base of the next one
  unfoldable pub cpu_part : Builder F → Option (List Bytes) → Builder F × CpuSnapshot F
  cpu_part builder cpu_lines =
      let (status, curr) = cpu_read_jiffies cpu_lines builder.max_lines builder.curr_jiffies in
      let (_, usage) =
        cpu_calc_usage_pct_batch builder.prev_jiffies curr builder.num_cores
          builder.per_core_usage in
      if is_ok status
      then (
        record builder { prev_jiffies = curr; curr_jiffies = curr; per_core_usage = usage },
        record {
          global_usage_pct = d.div (sum_from nought usage) (d.of_ℕ builder.num_cores);
          iowait_pct =
              iowait_pct (get_or builder.prev_jiffies 0 no_jiffies) (get_or curr 0 no_jiffies);
          per_core_usage_pct = usage;
          valid_core_count = builder.num_cores;
        },
      )
      else (record builder { curr_jiffies = curr }, no_cpu)

  -- the body behind the null checks, which always succeeds
  unfoldable pub snapshot_builder_collect : Reading → Builder F → Status × Builder F × Snapshot F
  snapshot_builder_collect reading builder =
      let (builder', cpu) = cpu_part builder reading.cpu_lines in
      let (_, ctx, procs) = proc_collect_snapshot reading.procs builder'.proc_ctx in
      (
        ok,
        record builder' { proc_ctx = ctx },
        record {
          timestamp_monotonic_ns = reading.now;
          cpu = cpu;
          mem = mem_part (mem_read_kibibytes reading.mem_lines (some no_meminfo));
          procs = procs;
        },
      )

  unfoldable pub snapshot_builder_cleanup : Option (Builder F) → Status × Option (Builder F)
  snapshot_builder_cleanup none = (err_null_pointer, none)
  snapshot_builder_cleanup (some builder) = (ok, some no_builder)

  -- the samples and their number
  unfoldable pub snapshot_builder_get_proc_samples : Option (Builder F) → List (ProcSample F) × ℕ
  snapshot_builder_get_proc_samples none = ([], 0)
  snapshot_builder_get_proc_samples (some builder) =
      (builder.proc_ctx.samples, builder.proc_ctx.count)

  abbrev pub with_context : (ProcContext F → ProcContext F) → Builder F → Builder F
  with_context f builder = record builder { proc_ctx = f builder.proc_ctx }

  unfoldable pub snapshot_builder_set_baseline_alpha : F → Builder F → Builder F
  snapshot_builder_set_baseline_alpha alpha =
      with_context λ ctx. record ctx { baseline_alpha = alpha }

  unfoldable pub snapshot_builder_set_top_processes_limit : ℕ → Builder F → Builder F
  snapshot_builder_set_top_processes_limit limit =
      let most = if ltb max_procs limit then max_procs else limit in
      with_context λ ctx. record ctx { top_processes_limit = if most == 0 then 1 else most }
