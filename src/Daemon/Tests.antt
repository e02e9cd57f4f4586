-- ===== src/Daemon/Tests.antt =====
-- Runs of the daemon, and its theorems at concrete inputs.
use spiketrace.Prelude.{
  ◌<◌, ◌≡◌, refl, true, false, none, some, List, [], ◌∷◌, arith, length, set, take, Bytes, codes,
}
use spiketrace.Prelude.Int.{pos, eqb_ℤ}
use spiketrace.Double.Fixed.{Fixed, fixed_double, units, Fixed-IsOrdered}
use spiketrace.Snapshot.{ProcSample, Snapshot}
use spiketrace.Config.Types.{Config}
use spiketrace.Config.Path.{is_safe_absolute_path, contains, starts_with}
use spiketrace.Config.Defaults.{config_init_defaults}
use spiketrace.Config.Load.{
  config_path, config_file_exists, config_get_default_path, load_path, config_load,
}
use spiketrace.Config.Validate.{validate}
use spiketrace.Anomaly.Types.{AnomalyResult, state_init, compute_scope_key}
use spiketrace.Anomaly.Cooldown.{cooldown_find, find_from, cooldown_is_active}
use spiketrace.Anomaly.Cpu.{
  evaluate_cpu, scan_samples, scan_sample, new_spike, after_new_check, delta_spike,
  after_delta_check, finish,
}
use spiketrace.Anomaly.Memory.{evaluate_mem, evaluate_swap}
use spiketrace.Anomaly.Evaluate.{cpu_step, mem_step, swap_step, evaluate, anomaly_should_dump}
use spiketrace.Ring.{blank, fresh, stamp, store}
use spiketrace.Ring.Bounds.{fresh-IsValid}
use spiketrace.Ring.History.{remember, contents, hot_run}
use spiketrace.Logs.{Opened, Locked}
use spiketrace.Logs.Manager.{log_manager_init}
use spiketrace.Dump.Write.{spike_dump_init}
use spiketrace.Sampler.Scan.{digits, run, scan_many, scan_unsigned, scan_word, skip_space}
use spiketrace.Sampler.Jiffies.{
  jiffies_of, parse_cpu_line, parse_core_num, read_line, read_lines, cpu_read_jiffies,
}
use spiketrace.Sampler.Meminfo.{mem_read_kibibytes}
use spiketrace.Sampler.Processes.Samples.{proc_context_init}
use spiketrace.Sampler.Processes.Collect.{proc_collect_snapshot}
use spiketrace.Sampler.Builder.{
  Builder, no_readings, no_builder, cpu_part, mem_part, snapshot_builder_init,
  snapshot_builder_collect, snapshot_builder_get_proc_samples, snapshot_builder_set_baseline_alpha,
  snapshot_builder_set_top_processes_limit,
}
use spiketrace.Daemon.Settings.{
  load_config, initial_config, config_to_anomaly_config, should_report, filtered,
}
use spiketrace.Daemon.Start.{Daemon, StartAnswers, set_from, start_dumps, start_logs, start}
use spiketrace.Daemon.Round.{
  Answers, origin_threshold, to_dump, refresh, detect, stepped, dump_report, round,
}
use spiketrace.Daemon.Sound.{IsSound, Runs, Runs-IsSound}
use spiketrace.Daemon.Enabled.{detect_masks}
use spiketrace.Daemon.Dumped.{origin_in, to_dump_refines}

abbrev dir : Bytes
dir = codes "/d"

dir_safe : is_safe_absolute_path (take 255 dir) ≡ true
unfolding is_safe_absolute_path contains starts_with
dir_safe = refl

abbrev defaults : Config Fixed
defaults = config_init_defaults dir

abbrev cpu_text : List Bytes
cpu_text = codes "cpu  20 0 10 160 10 0 0 0 0 0\n" ∷ codes "cpu0 10 0 5 80 5 0 0 0 0 0\n" ∷ []

abbrev start_answers : StartAnswers
start_answers = record {
  num_cores = pos 1;
  handlers_installed = true;
  files = record { home = none; pw_dir = none; is_regular = λ path. none; contents = λ path. none };
  cpu_lines = some cpu_text;
  mutex_made = true;
  dump_dir_accessible = λ path. true;
  group = none;
  log_dir_accessible = λ path. false;
  allocated = true;
}

abbrev first_builder : Builder Fixed
first_builder = record no_builder {
  prev_jiffies =
      set (set no_readings 0 (jiffies_of (20 ∷ 0 ∷ 10 ∷ 160 ∷ 10 ∷ []))) 1
        (jiffies_of (10 ∷ 0 ∷ 5 ∷ 80 ∷ 5 ∷ []));
  proc_ctx = proc_context_init;
  num_cores = 1;
  max_lines = 2;
}

abbrev first : Daemon Fixed
first = record {
  active_config = defaults;
  builder = set_from defaults first_builder;
  rb = fresh;
  anomaly_state = state_init;
  dump_ctx = some (record { output_dir = codes "/d"; dump_count = 0; spike_gid = 0 });
  log_ctx = none;
}

start_lem : start dir start_answers ≡ some first
unfolding start initial_config load_config config_load config_path config_file_exists
    config_get_default_path load_path validate is_safe_absolute_path contains starts_with eqb_ℤ
    snapshot_builder_init cpu_read_jiffies read_lines read_line parse_cpu_line parse_core_num
    scan_word run skip_space scan_many scan_unsigned digits start_dumps spike_dump_init start_logs
    log_manager_init
start_lem = refl

abbrev answers : Answers
answers = record {
  reload = none;
  reading = record {
    now = 5000000000;
    cpu_lines = none;
    mem_lines = none;
    procs = record {
      page_size = pos 4096;
      cpu_lines = none;
      allocated = true;
      names = none;
      stat_of = λ pid. none;
      statm_of = λ pid. none;
      status_of = λ pid. none;
      cmdline_of = λ pid. none;
    };
  };
  push_ns = 5000000001;
  granted = λ n. true;
  dump = record {
    local_time = none;
    iso_time = none;
    allocated = true;
    file = record { temp_path = none; writes = []; synced = true; closed = true; moved = true };
  };
  disk = record {
    now = pos 0;
    deletion = λ path. record {
      open_result = Opened.opened;
      lock_result = Locked.locked;
      unlinked = true;
    };
    entries = λ path. none;
    matches = λ pattern name. true;
  };
  scan_granted = true;
}

abbrev refreshed : Daemon Fixed
refreshed = refresh dir none first

abbrev collected : Builder Fixed
collected = (snapshot_builder_collect answers.reading refreshed.builder).1

abbrev snap : Snapshot Fixed
snap = (snapshot_builder_collect answers.reading refreshed.builder).2

abbrev second : Daemon Fixed
second = stepped answers refreshed collected snap

abbrev found : AnomalyResult Fixed
found = (detect defaults state_init collected snap).1

round_lem : round dir answers first ≡ some (second, found, [])
unfolding round snapshot_builder_collect refresh detect filtered cpu_part cpu_read_jiffies
    proc_collect_snapshot dump_report anomaly_should_dump snapshot_builder_get_proc_samples evaluate
    cpu_step mem_step swap_step evaluate_mem evaluate_swap mem_part mem_read_kibibytes set_from
    snapshot_builder_set_baseline_alpha snapshot_builder_set_top_processes_limit proc_context_init
round_lem = refl

Runs-IsSound_example : IsSound second
Runs-IsSound_example = Runs-IsSound Fixed-IsOrdered dir dir_safe second (
    Runs.went_on answers first second found [] round_lem
      (Runs.started start_answers first start_lem))

-- a new process that uses the CPU
abbrev busy : ProcSample Fixed
busy = record {
  pid = pos 7;
  ppid = pos 1;
  pgid = pos 7;
  uid = 0;
  state = b'R';
  ticks = 100;
  rss_kib = 400;
  cpu_pct = units 90;
  baseline_cpu_pct = units 90;
  sample_count = 1;
  is_new = true;
  comm = codes "a b";
  cmdline = [];
  valid = true;
}

abbrev without_cpu : Config Fixed
without_cpu = record defaults { enable_cpu_detection = false }

abbrev busy_builder : Builder Fixed
busy_builder = record first_builder {
  proc_ctx = record proc_context_init { samples = busy ∷ []; count = 1 };
}

detect_masks_example : (detect without_cpu state_init busy_builder snap).1.has_anomaly ≡ false
unfolding cpu_step evaluate_cpu scan_samples scan_sample new_spike after_new_check delta_spike
    after_delta_check finish cooldown_is_active cooldown_find find_from config_to_anomaly_config
    should_report eqb_ℤ compute_scope_key
detect_masks_example = detect_masks without_cpu state_init busy_builder snap refl refl

to_dump_refines_example :
    let history : List (Snapshot Fixed) = remember (stamp 9 blank) (contents fresh) in
    let snaps = take 10 history in
    let run = hot_run found.spike_pid (origin_threshold defaults found) history in
    (0 < length snaps)
    × (to_dump defaults (store 9 blank fresh) found
        ≡ some (snaps, record found { origin_snapshot_idx = pos (origin_in run (length snaps)) }))
to_dump_refines_example =
    to_dump_refines defaults 9 blank fresh found fresh-IsValid (omega arith) (omega arith)
