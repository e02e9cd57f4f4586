-- ===== src/Daemon/Start.antt =====
-- src/spktrace.c: what `main` does before its loop.
use spiketrace.Prelude.{
  ℕ, Bool, not, ◌||◌, Option, none, some, List, ltb, if◌then◌else◌, length, Bytes,
}
use spiketrace.Prelude.Int.{ℤ, pos, leb_ℤ, ltb_ℤ}
use spiketrace.Status.{Status, is_ok}
use spiketrace.Double.{Double}
use spiketrace.Snapshot.{max_cores}
use spiketrace.Config.Types.{Config}
use spiketrace.Config.Load.{Files}
use spiketrace.Anomaly.Types.{AnomalyState, state_init}
use spiketrace.Ring.{RingBuffer, fresh}
use spiketrace.Logs.Manager.{LogManager, log_manager_init}
use spiketrace.Dump.Write.{DumpContext, spike_dump_init}
use spiketrace.Sampler.Builder.{
  Builder, no_builder, snapshot_builder_init, snapshot_builder_set_baseline_alpha,
  snapshot_builder_set_top_processes_limit,
}
use spiketrace.Daemon.Settings.{initial_config}

-- what `main` keeps between two rounds; a context that could not be set up is `none`
pub record Daemon (F : Type 0) : Type 0 where
  pub active_config : Config F
  pub builder : Builder F
  pub rb : RingBuffer F
  pub anomaly_state : AnomalyState
  pub dump_ctx : Option DumpContext
  pub log_ctx : Option LogManager

-- what the system answers at the start
pub record StartAnswers : Type 0 where
  pub num_cores : ℤ
  pub handlers_installed : Bool
  pub files : Files
  pub cpu_lines : Option (List Bytes)
  pub mutex_made : Bool
  pub dump_dir_accessible : Bytes → Bool
  pub group : Option ℕ
  pub log_dir_accessible : Bytes → Bool
  pub allocated : Bool

abbrev pub if_ok : {A : Type 0} → Status × A → Option A
if_ok (status, a) = if is_ok status then some a else none

abbrev pub built : {A : Type 0} → Status × Option A → Option A
built (status, none) = none
built (status, some a) = if is_ok status then some a else none

module _ {F : Type 0} ⦃d : Double F⦄ where
  -- the settings that the builder takes
  unfoldable pub set_from : Config F → Builder F → Builder F
  set_from config builder =
      snapshot_builder_set_top_processes_limit config.top_processes_stored
        (snapshot_builder_set_baseline_alpha config.process_baseline_alpha builder)

  unfoldable pub start_dumps : StartAnswers → Config F → Option DumpContext
  start_dumps answers config =
      let dir = config.output_directory in
      if_ok (
        spike_dump_init answers.dump_dir_accessible answers.group
          (if ltb 0 (length dir) then some dir else none))

  unfoldable pub start_logs : StartAnswers → Config F → Option LogManager
  start_logs answers config =
      let dir = config.output_directory in
      if ltb 0 (length dir) then if_ok (log_manager_init answers.log_dir_accessible dir) else none

  -- with the settings and the builder
  abbrev pub start_with : StartAnswers → Config F → Option (Builder F) → Option (Daemon F)
  start_with answers config none = none
  start_with answers config (some builder) =
      if not answers.mutex_made || not answers.allocated
      then none
      else some (record {
        active_config = config;
        builder = set_from config builder;
        rb = fresh;
        anomaly_state = state_init;
        dump_ctx = start_dumps answers config;
        log_ctx = start_logs answers config;
      })

  -- the state before the loop; `none` is the exit with 1
  unfoldable pub start : Bytes → StartAnswers → Option (Daemon F)
  start dir answers =
      let config = initial_config dir answers.files in
      if leb_ℤ answers.num_cores (pos 0) || ltb_ℤ (pos max_cores) answers.num_cores
      then none
      else if not answers.handlers_installed
      then none
      else start_with answers config
          (built (snapshot_builder_init answers.cpu_lines (some no_builder) answers.num_cores))
