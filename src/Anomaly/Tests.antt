-- ===== src/Anomaly/Tests.antt =====
-- Runs of the detector, and its theorems at concrete inputs.
use spiketrace.Prelude.{ℕ, ◌≡◌, ◌≢◌, refl, ◌↔◌, true, false, some, List, [], ◌∷◌, arith, All}
use spiketrace.Prelude.Int.{pos, eqb_ℤ}
use spiketrace.Double.{nought}
use spiketrace.Double.Fixed.{Fixed, fixed_double, units, Fixed-IsOrdered}
use spiketrace.Snapshot.{ProcSample, MemSnapshot}
use spiketrace.Anomaly.Types.{
  AnomalyType, AnomalyConfig, AnomalyResult, AnomalyState, Table, no_result, state_init,
  compute_scope_key,
}
use spiketrace.Anomaly.Cooldown.{
  entry, find_from, cooldown_find, cooldown_is_active, cooldown_record,
}
use spiketrace.Anomaly.Cooldown.Lookup.{lookup, IsDistinct}
use spiketrace.Anomaly.Cooldown.Removal.{Checked, cooldown_is_active-Checked}
use spiketrace.Anomaly.Cpu.{
  evaluate_cpu, scan_samples, scan_sample, new_spike, delta_spike, after_delta_check, finish,
}
use spiketrace.Anomaly.Cpu.Pick.{held_by}
use spiketrace.Anomaly.Cpu.Valid.{IsValid}
use spiketrace.Anomaly.Cpu.Quiet.{evaluate_cpu-recorded, evaluate_cpu_no_repeat}
use spiketrace.Anomaly.Cpu.Report.{IsBound, IsWorst, evaluate_cpu-IsWorst}
use spiketrace.Anomaly.Memory.{
  is_cooling, is_pressure, evaluate_mem, evaluate_swap, mem_report, attribute, top_rss, is_drop,
  used_pct_of, is_swap_spike,
}
use spiketrace.Anomaly.Memory.Local.{mem_view, swap_view, is_mem_kind, is_swap_kind}
use spiketrace.Anomaly.Memory.Report.{Rises, Names, evaluate_swap_reports}
use spiketrace.Anomaly.Evaluate.{anomaly_default_config, cpu_step, mem_step, swap_step, evaluate}
use spiketrace.Anomaly.Evaluate.Priority.{first_report, evaluate_independent}
use spiketrace.Anomaly.Evaluate.Quiet.{evaluate_cooldown}
use spiketrace.Anomaly.Evaluate.Rounds.{Round, evaluate_round, results}

abbrev config : AnomalyConfig Fixed
config = anomaly_default_config

abbrev sample : ℕ → ℕ → ℕ → ℕ → ProcSample Fixed
sample pid cpu base rss = record {
  pid = pos pid;
  ppid = pos 1;
  pgid = pos pid;
  uid = 0;
  state = b'R';
  ticks = 0;
  rss_kib = rss;
  cpu_pct = units cpu;
  baseline_cpu_pct = units base;
  sample_count = 9;
  is_new = false;
  comm = b'x' ∷ [];
  cmdline = [];
  valid = true;
}

abbrev samples : List (ProcSample Fixed)
samples = sample 7 30 5 100 ∷ sample 8 90 10 50 ∷ sample 9 60 5 200 ∷ []

abbrev table : Table
table = entry (pos 8) 1000 ∷ entry (pos 5) 200 ∷ []

table-IsDistinct : IsDistinct table
unfolding eqb_ℤ lookup
table-IsDistinct = (refl, (refl, tt))

abbrev started : AnomalyState
started = record state_init {
  cooldowns = table;
  mem_baseline_kib = 900000;
  mem_baseline_initialized = true;
  last_mem_trigger_ns = 0;
  swap_baseline_kib = 0;
  swap_baseline_initialized = true;
}

abbrev memory : ℕ → ℕ → MemSnapshot
memory available swap_free = record {
  total_ram_kib = 1000000;
  available_ram_kib = available;
  free_ram_kib = 0;
  active_ram_kib = 0;
  inactive_ram_kib = 0;
  dirty_ram_kib = 0;
  slab_ram_kib = 0;
  swap_total_ram_kib = 500000;
  swap_free_ram_kib = swap_free;
  shmem_ram_kib = 0;
}

cooldown_is_active-Checked_example :
    Checked table
      (pos 5)
      6000000000
      5000000000
      (cooldown_is_active table (pos 5) 6000000000 5000000000)
cooldown_is_active-Checked_example =
    cooldown_is_active-Checked table (pos 5) 6000000000 5000000000 table-IsDistinct

started-IsValid : IsValid started.cooldowns
started-IsValid = record { distinct = table-IsDistinct; bounded = omega arith }

evaluate_cpu-recorded_example :
    let (state', out) = evaluate_cpu config 2000 started samples no_result in
    IsValid state'.cooldowns
    × (out.has_anomaly ≡ true → lookup out.scope_key state'.cooldowns ≡ some 2000)
evaluate_cpu-recorded_example = evaluate_cpu-recorded config 2000 started samples started-IsValid

-- the process with the larger jump is held back, so the second one is reported
abbrev first : AnomalyState × AnomalyResult Fixed
first = evaluate_cpu config 2000 started samples no_result

abbrev second : AnomalyState × AnomalyResult Fixed
second = evaluate_cpu config 3000 first.0 samples no_result

first_pid : first.1.spike_pid ≡ pos 9
unfolding evaluate_cpu scan_samples scan_sample new_spike delta_spike after_delta_check finish
    cooldown_is_active cooldown_find find_from compute_scope_key eqb_ℤ
first_pid = refl

first_reports : first.1.has_anomaly ≡ true
unfolding evaluate_cpu scan_samples scan_sample new_spike delta_spike after_delta_check finish
    cooldown_is_active cooldown_find find_from compute_scope_key eqb_ℤ
first_reports = refl

second_reports : second.1.has_anomaly ≡ true
unfolding evaluate_cpu scan_samples scan_sample new_spike delta_spike after_delta_check finish
    cooldown_is_active cooldown_record cooldown_find find_from compute_scope_key eqb_ℤ
second_reports = refl

evaluate_cpu_no_repeat_example : second.1.scope_key ≢ first.1.scope_key
evaluate_cpu_no_repeat_example =
    evaluate_cpu_no_repeat config 2000 3000 started samples samples started-IsValid (omega arith)
      first_reports second_reports

evaluate_cpu-IsWorst_example :
    let held = held_by started.cooldowns 2000 config.cooldown_ns in
    let out = (evaluate_cpu config 2000 started samples no_result).1 in
    (out.has_anomaly ≡ true → IsWorst Fixed-IsOrdered config 2000 held samples out)
    × (out.has_anomaly ≡ false → All (IsBound Fixed-IsOrdered config 2000 held nought) samples)
evaluate_cpu-IsWorst_example =
    evaluate_cpu-IsWorst Fixed-IsOrdered config 2000 started samples table-IsDistinct

evaluate_swap_reports_example :
    let out = (evaluate_swap config started (memory 100000 0) samples 10 no_result).1 in
    (is_cooling config 0 10 ≡ true → out.has_anomaly ≡ false)
    × (is_cooling config 0 10 ≡ false
        → ((out.has_anomaly ≡ true) ↔ Rises config 500000 0)
          × (out.has_anomaly ≡ true → (out.kind ≡ AnomalyType.swap_spike) × Names samples out))
evaluate_swap_reports_example =
    evaluate_swap_reports config started (memory 100000 0) samples 10 (omega arith) refl
      (omega arith) (omega arith)

evaluate_independent_example :
    let (state', out) = evaluate config started samples (some (memory 100000 0)) 2000 in
    let (cpu_state, cpu_out) = cpu_step config started samples 2000 in
    let (mem_state, mem_out) = mem_step config started (some (memory 100000 0)) samples 2000 in
    let (swap_state, swap_out) = swap_step config started (some (memory 100000 0)) samples 2000 in
    (state'.cooldowns ≡ cpu_state.cooldowns)
    × (mem_view state' ≡ mem_view mem_state)
    × (swap_view state' ≡ swap_view swap_state)
    × (out ≡ first_report cpu_out mem_out swap_out)
evaluate_independent_example =
    evaluate_independent config started samples (some (memory 100000 0)) 2000

-- rounds without a CPU spike, the first with a drop of memory and the second with a rise of swap
abbrev round : ℕ → ℕ → ℕ → Round Fixed
round available swap_free now = record {
  samples = [];
  mem = some (memory available swap_free);
  now = now;
}

abbrev rounds : List (Round Fixed)
rounds = round 90000 100000 20 ∷ round 80000 500000 30 ∷ []

evaluate_cooldown_example :
    let (state', out) = evaluate_round config started (round 100000 400000 10) in
    (is_mem_kind out.kind ≡ true
      → All (λ later. is_mem_kind later.kind ≡ false) (results config state' rounds))
    × (is_swap_kind out.kind ≡ true
        → All (λ later. is_swap_kind later.kind ≡ false) (results config state' rounds))
evaluate_cooldown_example =
    evaluate_cooldown config started (round 100000 400000 10) rounds (omega arith)
      ((omega arith, omega arith), ((omega arith, omega arith), tt))

-- the first round reports the drop
round_reports :
    (evaluate_round config started (round 100000 400000 10)).1.kind ≡ AnomalyType.mem_drop
unfolding evaluate cpu_step mem_step swap_step evaluate_mem evaluate_swap mem_report attribute
    top_rss is_cooling is_drop is_pressure used_pct_of is_swap_spike
round_reports = refl
