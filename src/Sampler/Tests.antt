-- ===== src/Sampler/Tests.antt =====
-- Runs of the samplers, and their theorems at concrete inputs.
use spiketrace.Prelude.{
  ◌≡◌, refl, true, none, some, List, [], ◌∷◌, arith, ◌==◌, if◌then◌else◌, length, set, Bytes, codes,
}
use spiketrace.Prelude.Int.{pos, negsuc, eqb_ℤ}
use spiketrace.Status.{ok, err_mem_parse_failed}
use spiketrace.Config.Path.{starts_with}
use spiketrace.Double.Fixed.{Fixed, fixed_double, units, Fixed-IsOrdered}
use spiketrace.Snapshot.{ProcSample}
use spiketrace.Sampler.Scan.{digits, run, scan_int, scan_many, scan_unsigned, scan_word, skip_space}
use spiketrace.Sampler.Jiffies.{
  Jiffies, jiffies_of, parse_cpu_line, parse_core_num, read_line, read_lines, total_jiffies,
  cpu_read_jiffies,
}
use spiketrace.Sampler.Meminfo.{no_meminfo, lookup, read_field, read_fields, mem_read_kibibytes}
use spiketrace.Sampler.Meminfo.Latest.{Line, Figure}
use spiketrace.Sampler.Processes.Parse.{
  behind_first, around_last, skip_ints, skip_unsigned, parse_fields, parse_proc_stat,
  parse_proc_statm, get_page_size, with_spaces, proc_read_cmdline,
}
use spiketrace.Sampler.Processes.Reads.{Numbers}
use spiketrace.Sampler.Processes.Samples.{
  ProcContext, proc_context_init, find_sample, cpu_since, next_count, next_baseline, sample_from,
  place,
}
use spiketrace.Sampler.Processes.Collect.{
  ProcFiles, read_total_system_ticks, read_sample, scan_dir, ticks_since, samples_of,
  proc_collect_snapshot,
}
use spiketrace.Sampler.Processes.Collect.Orders.{Busier, Larger}
use spiketrace.Sampler.Processes.Collect.Top.{IsTop, proc_collect_snapshot-IsTop}
use spiketrace.Sampler.Builder.{
  Builder, Reading, no_readings, no_builder, snapshot_builder_init, snapshot_builder_collect,
}
use spiketrace.Sampler.Builder.Ready.{IsReady, Reached, Reached-IsReady}
use spiketrace.Sampler.Builder.Whole.{IsMeasured, IsCounted, snapshot_builder_collect-IsMeasured}
use Prim.Native.Nat.{min}

abbrev total : Jiffies
total = jiffies_of (20 ∷ 0 ∷ 10 ∷ 160 ∷ 10 ∷ [])

abbrev core : Jiffies
core = jiffies_of (10 ∷ 0 ∷ 5 ∷ 80 ∷ 5 ∷ [])

abbrev mem_lines : List Line
mem_lines =
    Line.figure Figure.total 8000
    ∷ Line.other (codes "Cached: 3 kB\n")
    ∷ Line.figure Figure.free 500
    ∷ Line.figure Figure.free 400
    ∷ []

-- a label without a number ends the reading, and what was read before stays
mem_cut :
    mem_read_kibibytes (some (codes "MemTotal: 9 kB\n" ∷ codes "MemFree:\n" ∷ [])) (some no_meminfo)
    ≡ (err_mem_parse_failed, some (record no_meminfo { total = 9 }))
unfolding mem_read_kibibytes read_fields read_field lookup starts_with scan_word run skip_space
    scan_unsigned digits
mem_cut = refl

cmdline_test : proc_read_cmdline (some (b'l' ∷ b's' ∷ 0 ∷ b'-' ∷ b'a' ∷ 0 ∷ [])) 256 ≡ codes "ls -a"
unfolding proc_read_cmdline with_spaces
cmdline_test = refl

abbrev numbers : Numbers
numbers = record {
  ppid = pos 1;
  pgrp = pos 7;
  others = pos 7 ∷ pos 0 ∷ negsuc 0 ∷ [];
  faults = 4194304 ∷ 10 ∷ 0 ∷ 2 ∷ 0 ∷ [];
  utime = 30;
  stime = 12;
}

abbrev files : ProcFiles
files = record {
  page_size = pos 4096;
  cpu_lines = some (codes "cpu  100 0 50 40 10 0 0 0 0 0\n" ∷ []);
  allocated = true;
  names = some (codes "7" ∷ codes "self" ∷ codes "42" ∷ []);
  stat_of = λ pid. some (
      if pid == 7
      then codes "7 (a b) S 1 7 7 0 -1 0 0 0 0 0 30 12 0\n"
      else codes "42 (c) R 1 42 42 0 -1 0 0 0 0 0 5 5 0\n");
  statm_of = λ pid. some (codes "900 100 0\n");
  status_of = λ pid. none;
  cmdline_of = λ pid. none;
}

abbrev known : ProcSample Fixed
known = record {
  pid = pos 7;
  ppid = pos 1;
  pgid = pos 7;
  uid = 0;
  state = b'S';
  ticks = 12;
  rss_kib = 400;
  cpu_pct = units 0;
  baseline_cpu_pct = units 0;
  sample_count = 1;
  is_new = true;
  comm = codes "a b";
  cmdline = [];
  valid = true;
}

abbrev ctx : ProcContext Fixed
ctx = record {
  samples = known ∷ [];
  count = 1;
  last_total_ticks = 100;
  baseline_alpha = units 0;
  top_processes_limit = 1;
}

proc_collect_snapshot-IsTop_example :
    let samples = samples_of files ctx (codes "7" ∷ codes "self" ∷ codes "42" ∷ []) in
    let (status, ctx', out) = proc_collect_snapshot files ctx in
    (status ≡ ok)
    × (out.valid_entry_count ≡ min (min (length samples) 1) 10)
    × (out.valid_rss_count ≡ out.valid_entry_count)
    × IsTop Busier files out.valid_entry_count samples out.entries
    × IsTop Larger files out.valid_entry_count samples out.top_rss_entries
unfolding scan_dir read_sample place parse_proc_stat behind_first around_last parse_fields skip_ints
    skip_unsigned scan_int scan_unsigned skip_space digits parse_proc_statm get_page_size
    sample_from find_sample cpu_since next_count next_baseline ticks_since read_total_system_ticks
    cpu_read_jiffies read_lines read_line parse_cpu_line parse_core_num scan_word run scan_many
    starts_with total_jiffies eqb_ℤ
proc_collect_snapshot-IsTop_example =
    proc_collect_snapshot-IsTop Fixed-IsOrdered files ctx
      (codes "7" ∷ codes "self" ∷ codes "42" ∷ []) refl refl ((refl, refl), ((refl, refl), tt))
      (omega arith)

abbrev cpu_text : List Bytes
cpu_text = codes "cpu  20 0 10 160 10 0 0 0 0 0\n" ∷ codes "cpu0 10 0 5 80 5 0 0 0 0 0\n" ∷ []

abbrev made_builder : Builder Fixed
made_builder = record no_builder {
  prev_jiffies = set (set no_readings 0 total) 1 core;
  proc_ctx = proc_context_init;
  num_cores = 1;
  max_lines = 2;
}

made_lem : snapshot_builder_init (some cpu_text) (some no_builder) (pos 1) ≡ (ok, some made_builder)
unfolding snapshot_builder_init cpu_read_jiffies read_lines read_line parse_cpu_line parse_core_num
    scan_word run skip_space scan_many scan_unsigned digits starts_with
made_lem = refl

abbrev reading : Reading
reading = record { now = 5; cpu_lines = some cpu_text; mem_lines = none; procs = files }

Reached-IsReady_example : IsReady (snapshot_builder_collect reading made_builder).1
Reached-IsReady_example = Reached-IsReady (snapshot_builder_collect reading made_builder).1 (
    Reached.collected reading made_builder
      (Reached.made (some cpu_text) (pos 1) no_builder made_builder made_lem))

snapshot_builder_collect-IsMeasured_example :
    let (status, b', out) = snapshot_builder_collect reading made_builder in
    (status ≡ ok)
    × (out.timestamp_monotonic_ns ≡ 5)
    × IsMeasured Fixed-IsOrdered out.cpu
    × IsCounted out.procs
snapshot_builder_collect-IsMeasured_example =
    snapshot_builder_collect-IsMeasured Fixed-IsOrdered reading made_builder
      (Reached.made (some cpu_text) (pos 1) no_builder made_builder made_lem)
