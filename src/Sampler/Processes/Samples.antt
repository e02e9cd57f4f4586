-- ===== src/Sampler/Processes/Samples.antt =====
-- src/proc.c: the samples that are kept from round to round, and their orders.
use spiketrace.Prelude.{
  ℕ, ◌+◌, ◌-◌, Bool, true, false, not, ◌&&◌, Option, none, some, List, [], ◌∷◌, ◌++◌, ltb, leb,
  if◌then◌else◌, length, get_or, set, take,
}
use spiketrace.Prelude.Int.{ℤ, pos, negsuc, eqb_ℤ}
use spiketrace.Double.{Double, nought}
use spiketrace.Snapshot.{max_procs, ProcSnapshot, ProcSample}
use spiketrace.Sorting.{qsort}
use spiketrace.Sampler.Jiffies.{hundred}
use spiketrace.Sampler.Processes.Parse.{Stat}

-- `PROC_MAX_TRACKED`, the sizes of the two texts
abbrev pub max_tracked : ℕ
max_tracked = 512

abbrev pub comm_size : ℕ
comm_size = 16

abbrev pub cmdline_max : ℕ
cmdline_max = 256

-- `proc_context_t`; the samples are the first `count` of the array
pub record ProcContext (F : Type 0) : Type 0 where
  pub samples : List (ProcSample F)
  pub count : ℕ
  pub last_total_ticks : ℕ
  pub baseline_alpha : F
  pub top_processes_limit : ℕ

-- invalid entries go to the end
abbrev pub compare_valid : Bool → Bool → ℤ → ℤ
compare_valid true true other = other
compare_valid false false other = pos 0
compare_valid false true other = pos 1
compare_valid true false other = negsuc 0

module _ {F : Type 0} ⦃d : Double F⦄ where
  unfoldable pub find_sample : List (ProcSample F) → ℤ → Option (ProcSample F)
  find_sample [] pid = none
  find_sample (s ∷ samples) pid =
      if s.valid && eqb_ℤ s.pid pid then some s else find_sample samples pid

  abbrev pub find_prev_sample : ProcContext F → ℤ → Option (ProcSample F)
  find_prev_sample ctx pid = find_sample (take ctx.count ctx.samples) pid

  unfoldable pub compare_samples_by_cpu : ProcSample F → ProcSample F → ℤ
  compare_samples_by_cpu sa sb = compare_valid sa.valid sb.valid (
      if d.lt sa.cpu_pct sb.cpu_pct
      then pos 1
      else if d.lt sb.cpu_pct sa.cpu_pct
      then negsuc 0
      else if ltb sa.rss_kib sb.rss_kib
      then pos 1
      else if ltb sb.rss_kib sa.rss_kib
      then negsuc 0
      else pos 0)

  unfoldable pub compare_samples_by_rss : ProcSample F → ProcSample F → ℤ
  compare_samples_by_rss sa sb = compare_valid sa.valid sb.valid (
      if ltb sa.rss_kib sb.rss_kib
      then pos 1
      else if ltb sb.rss_kib sa.rss_kib
      then negsuc 0
      else if d.lt sa.cpu_pct sb.cpu_pct
      then pos 1
      else if d.lt sb.cpu_pct sa.cpu_pct
      then negsuc 0
      else pos 0)

  -- the context, given unless its pointer is null
  unfoldable pub proc_context_init : ProcContext F
  proc_context_init = record {
    samples = [];
    count = 0;
    last_total_ticks = 0;
    baseline_alpha = d.literal 3 10;
    top_processes_limit = max_procs;
  }

  abbrev pub proc_context_cleanup : ProcContext F
  proc_context_cleanup = record {
    samples = [];
    count = 0;
    last_total_ticks = 0;
    baseline_alpha = nought;
    top_processes_limit = 0;
  }

  abbrev pub no_procs : ProcSnapshot F
  no_procs = record {
    entries = [];
    valid_entry_count = 0;
    top_rss_entries = [];
    valid_rss_count = 0;
  }

  -- the usage since the previous sample
  unfoldable pub cpu_since : Bool → ℕ → ℕ → Option (ProcSample F) → F
  cpu_since is_first_call tick_delta ticks none = nought
  cpu_since is_first_call tick_delta ticks (some prev) =
      if (not is_first_call && ltb 0 tick_delta) && leb prev.ticks ticks
      then d.div (d.mul hundred (d.of_ℕ (ticks - prev.ticks))) (d.of_ℕ tick_delta)
      else nought

  unfoldable pub next_count : Option (ProcSample F) → ℕ
  next_count none = 1
  next_count (some prev) = if ltb prev.sample_count 255 then prev.sample_count + 1 else 255

  unfoldable pub next_baseline : F → F → Option (ProcSample F) → F
  next_baseline alpha cpu_pct none = cpu_pct
  next_baseline alpha cpu_pct (some prev) =
      d.add (d.mul alpha cpu_pct) (d.mul (d.sub (d.literal 1 1) alpha) prev.baseline_cpu_pct)

  abbrev pub is_none : Option (ProcSample F) → Bool
  is_none none = true
  is_none (some prev) = false

  -- the sample of a process, with what is known of it from the round before
  unfoldable pub sample_from :
      ProcContext F → Bool → ℕ → ℕ → Stat → ℕ → Option (ProcSample F) → ProcSample F
  sample_from ctx is_first_call tick_delta pid stat rss prev =
      let cpu = cpu_since is_first_call tick_delta stat.ticks prev in
      record {
        pid = pos pid;
        ppid = stat.ppid;
        pgid = stat.pgid;
        uid = 0;
        state = stat.state;
        ticks = stat.ticks;
        rss_kib = rss;
        cpu_pct = cpu;
        baseline_cpu_pct = next_baseline ctx.baseline_alpha cpu prev;
        sample_count = next_count prev;
        is_new = is_none prev;
        comm = stat.comm;
        cmdline = [];
        valid = true;
      }

  -- the store of a sample, with room or without
  unfoldable pub replace_worst : ProcSample F → List (ProcSample F) → List (ProcSample F)
  replace_worst sample curr_samples =
      let worst = get_or curr_samples (max_tracked - 1) sample in
      if d.lt worst.cpu_pct sample.cpu_pct
      then qsort compare_samples_by_cpu (set curr_samples (max_tracked - 1) sample)
      else curr_samples

  unfoldable pub place : ProcSample F → List (ProcSample F) → List (ProcSample F)
  place sample curr_samples =
      if ltb (length curr_samples) max_tracked
      then curr_samples ++ sample ∷ []
      else replace_worst sample curr_samples
