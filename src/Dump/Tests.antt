-- ===== src/Dump/Tests.antt =====
-- Runs of the dump, and its theorems at concrete inputs.
use spiketrace.Prelude.{
  ℕ, ◌≡◌, refl, Bool, true, false, none, some, List, [], ◌∷◌, arith, length, codes,
}
use spiketrace.Prelude.Int.{pos}
use spiketrace.Status.{ok, err_dump_write_failed}
use spiketrace.Double.Fixed.{Fixed, fixed_double, units}
use spiketrace.Snapshot.{ProcEntry, Snapshot}
use spiketrace.Ring.{blank}
use spiketrace.Anomaly.Types.{AnomalyType, AnomalyResult, no_result}
use spiketrace.Json.{Writer, escape}
use spiketrace.Json.Values.{signed, decimal_fuel}
use spiketrace.Json.Writes.{escaped}
use spiketrace.Json.Document.{print, IsShort, emit}
use spiketrace.Dump.Atomic.{Files, Change, Write, Answers, write_loop, write_atomic}
use spiketrace.Dump.Atomic.Returns.{AllWell}
use spiketrace.Dump.Schema.{entry_value, snapshot_value, anomaly_value, items_of, dump_value}
use spiketrace.Dump.Write.{
  DumpContext, DumpAnswers, build_document, with_colon, spkt_format_iso8601, spike_dump_write,
}
use spiketrace.Dump.Write.Document.{build_document-emit}
use spiketrace.Dump.Write.Ends.{Ends}
use spiketrace.Dump.Write.Saves.{dumped_value, spike_dump_write_succeeds}

abbrev entry : ProcEntry Fixed
entry = record {
  pid = pos 42;
  ppid = pos 1;
  uid = 1000;
  state = b'R';
  comm = codes "a\"b";
  cmdline = [];
  cpu_usage_pct = units 7;
  rss_kib = 2048;
}

abbrev snapshot : Snapshot Fixed
snapshot = record blank {
  timestamp_monotonic_ns = 5000000000;
  procs = record {
    entries = entry ∷ [];
    valid_entry_count = 1;
    top_rss_entries = [];
    valid_rss_count = 0;
  };
}

abbrev anomaly : AnomalyResult Fixed
anomaly = record no_result { has_anomaly = true; kind = AnomalyType.cpu_delta; spike_pid = pos 42 }

abbrev ctx : DumpContext
ctx = record { output_dir = codes "/d"; dump_count = 3; spike_gid = 0 }

abbrev file_answers : Answers
file_answers = record {
  temp_path = some (codes "/d/t");
  writes = Write.wrote 4 ∷ Write.interrupted ∷ Write.wrote 9000 ∷ [];
  synced = true;
  closed = true;
  moved = true;
}

abbrev answers : DumpAnswers
answers = record {
  local_time = some (codes "2026-01-30_17-08-09");
  iso_time = some (codes "2026-01-30T17:08:09+0700");
  allocated = true;
  file = file_answers;
}

abbrev no_files : Files
no_files p = none

granted : ℕ → Bool
granted n = true

iso_run : spkt_format_iso8601 answers.iso_time ≡ codes "2026-01-30T17:08:09+07:00"
unfolding spkt_format_iso8601 with_colon
iso_run = refl

-- what was written before the error is removed again
failed_run :
    write_atomic
      (codes "/d/f")
      (codes "abc")
      (record file_answers { writes = Write.wrote 2 ∷ Write.failed ∷ [] })
    ≡ some (
      err_dump_write_failed,
      Change.created (codes "/d/t")
          ∷ Change.appended (codes "/d/t") (codes "ab")
          ∷ Change.unlinked (codes "/d/t")
          ∷ [],
    )
unfolding write_atomic write_loop
failed_run = refl

abbrev six_changes : List Change
six_changes =
    Change.created (codes "/d/t")
    ∷ Change.appended (codes "/d/t") (codes "abcd")
    ∷ Change.appended (codes "/d/t") (codes "ef")
    ∷ Change.renamed (codes "/d/t") (codes "/d/f")
    ∷ []

dump-IsShort : IsShort (dumped_value answers (snapshot ∷ []) anomaly 6000000000)
unfolding IsShort dump_value snapshot_value anomaly_value entry_value items_of spkt_format_iso8601
    with_colon
dump-IsShort = omega arith

dump_length : length (print (dumped_value answers (snapshot ∷ []) anomaly 6000000000)) ≡ 1328
unfolding print escaped escape signed decimal_fuel dump_value snapshot_value anomaly_value
    entry_value items_of spkt_format_iso8601 with_colon
dump_length = refl

file_answers-AllWell :
    AllWell (print (dumped_value answers (snapshot ∷ []) anomaly 6000000000)) file_answers
file_answers-AllWell = record {
  made = (codes "/d/t", refl);
  fine = tt;
  enough = omega (arith, dump_length);
  synced = refl;
  closed = refl;
  moved = refl;
}

abbrev saved_ctx : DumpContext
saved_ctx = record ctx { dump_count = 4 }

spike_dump_write_succeeds_example :
    (cs : List Change) × (spike_dump_write granted ctx answers (snapshot ∷ []) anomaly 6000000000
      ≡ some (ok, saved_ctx, cs))
unfolding granted decimal_fuel
spike_dump_write_succeeds_example =
    spike_dump_write_succeeds granted ctx answers (snapshot ∷ []) anomaly 6000000000 dump-IsShort
      (omega arith) (omega arith) refl (λ n. refl) (omega (arith, dump_length)) file_answers-AllWell

abbrev first : Writer
first = record { text = []; capacity = 65536; needs_comma = false; error = false }

build_document-emit_example :
    build_document granted [] (snapshot ∷ []) anomaly 7 first
    ≡ emit granted (dump_value [] (snapshot ∷ []) anomaly 7) first
build_document-emit_example = build_document-emit granted [] (snapshot ∷ []) anomaly 7 first
