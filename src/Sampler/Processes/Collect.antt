-- ===== src/Sampler/Processes/Collect.antt =====
-- src/proc.c: one sampling round over the processes.
pub mod Cases
pub mod Table
pub mod Tracked
pub mod Orders
pub mod Top
use spiketrace.Prelude.{
  ◌>>=◌, ℕ, zero, suc, ◌+◌, ◌-◌, ◌*◌, Bool, true, false, not, ◌&&◌, Option, none, some, List, [],
  ◌∷◌, ◌++◌, map, ltb, leb, ◌==◌, if◌then◌else◌, length, get_or, set, take, Bytes,
}
use spiketrace.Prelude.Int.{ℤ, pos, negsuc, eqb_ℤ}
use spiketrace.Status.{Status, ok, is_ok, err_alloc_failed, err_proc_open_dir, err_null_pointer}
use spiketrace.Double.{Double, nought}
use spiketrace.Snapshot.{max_procs, ProcEntry, ProcSnapshot, ProcSample}
use spiketrace.Sorting.{qsort}
use spiketrace.Sampler.Scan.{is_digit, digits}
use spiketrace.Sampler.Jiffies.{no_jiffies, total_jiffies, hundred, cpu_read_jiffies}
use spiketrace.Sampler.Processes.Parse.{
  Stat, parse_proc_stat, parse_proc_statm, proc_read_uid, proc_read_cmdline,
}
use spiketrace.Sampler.Processes.Samples.{
  max_tracked, comm_size, cmdline_max, ProcContext, compare_valid, find_sample, find_prev_sample,
  compare_samples_by_cpu, compare_samples_by_rss, proc_context_init, proc_context_cleanup, no_procs,
  cpu_since, next_count, next_baseline, is_none, sample_from, replace_worst, place,
}

-- what the system answers in a round: the page size, the files, the names in /proc, and the
-- outcome of `calloc`
pub record ProcFiles : Type 0 where
  pub page_size : ℤ
  pub cpu_lines : Option (List Bytes)
  pub allocated : Bool
  pub names : Option (List Bytes)
  pub stat_of : ℕ → Option Bytes
  pub statm_of : ℕ → Option Bytes
  pub status_of : ℕ → Option (List Bytes)
  pub cmdline_of : ℕ → Option Bytes

unfoldable pub read_total_system_ticks : Option (List Bytes) → ℕ
read_total_system_ticks cpu_lines =
    let (status, jiffies) = cpu_read_jiffies cpu_lines 1 (no_jiffies ∷ []) in
    if is_ok status then total_jiffies (get_or jiffies 0 no_jiffies) else 0

-- `atoi` of a name that starts with a digit
abbrev pub name_pid : Bytes → Option ℕ
name_pid [] = none
name_pid (c ∷ cs) =
    let (pid, rest) = digits (c ∷ cs) 0 in
    if is_digit c then (if pid == 0 then none else some pid) else none

abbrev pub pid_number : ℤ → ℕ
pid_number (pos n) = n
pid_number (negsuc n) = 0

module _ {F : Type 0} ⦃d : Double F⦄ where
  module _ (files : ProcFiles) (ctx : ProcContext F) (is_first_call : Bool) (tick_delta : ℕ) where
    unfoldable pub read_sample : Bytes → Option (ProcSample F)
    read_sample d_name = do
      pid ← name_pid d_name
      stat ← parse_proc_stat (files.stat_of pid) comm_size
      rss_kib ← parse_proc_statm files.page_size (files.statm_of pid)
      some (
          sample_from ctx is_first_call tick_delta pid stat rss_kib
            (find_prev_sample ctx (pos pid)))

    abbrev pub place_some : Option (ProcSample F) → List (ProcSample F) → List (ProcSample F)
    place_some none curr_samples = curr_samples
    place_some (some sample) curr_samples = place sample curr_samples

    -- the loop over the directory
    unfoldable pub scan_dir : List Bytes → List (ProcSample F) → List (ProcSample F)
    scan_dir [] curr_samples = curr_samples
    scan_dir (d_name ∷ names) curr_samples =
        scan_dir names (place_some (read_sample d_name) curr_samples)

  -- an entry, with the user and the command line, which only listed processes need
  unfoldable pub entry_of : ProcFiles → ProcSample F → ProcEntry F
  entry_of files s = record {
    pid = s.pid;
    ppid = s.ppid;
    uid = proc_read_uid (files.status_of (pid_number s.pid));
    state = s.state;
    comm = take (comm_size - 1) s.comm;
    cmdline = proc_read_cmdline (files.cmdline_of (pid_number s.pid)) cmdline_max;
    cpu_usage_pct = s.cpu_pct;
    rss_kib = s.rss_kib;
  }

  unfoldable pub copy_count : ProcContext F → ℕ → ℕ
  copy_count ctx curr_count =
      let n =
        if ltb curr_count ctx.top_processes_limit then curr_count else ctx.top_processes_limit in
      if ltb max_procs n then max_procs else n

  -- what is done with the samples
  unfoldable pub conclude :
      ProcFiles → ProcContext F → ℕ → List (ProcSample F) → Status × ProcContext F × ProcSnapshot F
  conclude files ctx total_ticks [] = (ok, record ctx { last_total_ticks = total_ticks }, no_procs)
  conclude files ctx total_ticks (s ∷ samples) =
      let by_cpu = qsort compare_samples_by_cpu (s ∷ samples) in
      let by_rss = qsort compare_samples_by_rss by_cpu in
      let n = copy_count ctx (length (s ∷ samples)) in
      (
        ok,
        record ctx {
          samples = take max_tracked by_rss;
          count =
              if ltb (length (s ∷ samples)) max_tracked then length (s ∷ samples) else max_tracked;
          last_total_ticks = total_ticks;
        },
        record {
          entries = map (entry_of files) (take n by_cpu);
          valid_entry_count = n;
          top_rss_entries = map (entry_of files) (take n by_rss);
          valid_rss_count = n;
        },
      )

  unfoldable pub ticks_since : ProcContext F → ℕ → ℕ
  ticks_since ctx total_ticks =
      if ltb ctx.last_total_ticks total_ticks then total_ticks - ctx.last_total_ticks else 0

  -- the samples of a round
  abbrev pub samples_of : ProcFiles → ProcContext F → List Bytes → List (ProcSample F)
  samples_of files ctx names =
      scan_dir files ctx (ctx.last_total_ticks == 0)
        (ticks_since ctx (read_total_system_ticks files.cpu_lines)) names []

  abbrev pub collect :
      ProcFiles → ProcContext F → Option (List Bytes) → Status × ProcContext F × ProcSnapshot F
  collect files ctx none = (err_proc_open_dir, ctx, no_procs)
  collect files ctx (some names) =
      conclude files ctx (read_total_system_ticks files.cpu_lines) (samples_of files ctx names)

  unfoldable pub proc_collect_snapshot :
      ProcFiles → ProcContext F → Status × ProcContext F × ProcSnapshot F
  proc_collect_snapshot files ctx =
      if files.allocated then collect files ctx files.names else (err_alloc_failed, ctx, no_procs)
