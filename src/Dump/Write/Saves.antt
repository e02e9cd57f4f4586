-- ===== src/Dump/Write/Saves.antt =====
-- A dump is saved as a whole or not at all, and it is saved if nothing fails.
use spiketrace.Prelude.{
  ℕ, ◌+◌, ◌<◌, ◌≡◌, refl, ap, ◌∙◌, inl, Bool, true, false, some, List, [], arith, leb, ◌==◌,
  if◌then◌else◌, length, take, Bytes,
}
use spiketrace.Status.{Status, ok, err_json_alloc}
use spiketrace.Double.{Double}
use spiketrace.Snapshot.{Snapshot}
use spiketrace.Anomaly.Types.{AnomalyResult}
use spiketrace.Json.{Writer, max_size}
use spiketrace.Json.Values.{spkt_json_init}
use spiketrace.Json.Writes.{IsGood}
use spiketrace.Json.Document.{Value, print, IsShort, emit}
use spiketrace.Json.Document.Printed.{emit_prints}
use spiketrace.Dump.Schema.{dump_value}
use spiketrace.Dump.Atomic.{Change, write_atomic}
use spiketrace.Dump.Atomic.Returns.{AllWell, write_atomic_succeeds}
use spiketrace.Dump.Write.{
  DumpContext, DumpAnswers, not_dumped, counted, save, max_snapshots, path_max, time_str, dump_path,
  spkt_format_iso8601, write_document, spike_dump_write,
}
use spiketrace.Dump.Write.Document.{build_document-emit}
use spiketrace.Dump.Write.Ends.{Ends}

-- the writer that `spike_dump_write` starts with
abbrev first_writer : Writer
first_writer = record { text = []; capacity = 65536; needs_comma = false; error = false }

first_writer-IsGood : IsGood first_writer
first_writer-IsGood = record { clean = refl; bounded = omega arith; step = inl refl }

abbrev pub dumped_path : DumpContext → DumpAnswers → ℕ → Bytes
dumped_path ctx answers t = dump_path ctx (time_str answers.local_time t)

module _ {F : Type 0} ⦃d : Double F⦄ where
  -- the document of a dump
  abbrev pub dumped_value : DumpAnswers → List (Snapshot F) → AnomalyResult F → ℕ → Value F
  dumped_value answers snapshots anomaly t =
      dump_value (spkt_format_iso8601 answers.iso_time) (take max_snapshots snapshots) anomaly t

module _ {F : Type 0} ⦃d : Double F⦄ (granted : ℕ → Bool) where
  document_saved :
      (ctx : DumpContext) (answers : DumpAnswers) (filepath : Bytes) (snapshots : List (Snapshot F))
      (anomaly : AnomalyResult F) (t : ℕ) (made : Bool)
      → write_document granted ctx answers filepath snapshots anomaly t (spkt_json_init made 0) ≡ (
          if made
          then save ctx answers.file filepath
              (emit granted (dumped_value answers snapshots anomaly t) first_writer)
          else not_dumped ctx err_json_alloc)
  unfolding spkt_json_init
  document_saved ctx answers filepath snapshots anomaly t true =
      ap (save ctx answers.file filepath) (
        build_document-emit granted (spkt_format_iso8601 answers.iso_time)
          (take max_snapshots snapshots) anomaly t first_writer)
  document_saved ctx answers filepath snapshots anomaly t false = refl

  -- `spike_dump_write` succeeds if there is a snapshot, the path and the doubles fit their buffers,
  -- the memory suffices for a document below one MiB, and no call on the file fails, with `write`
  -- taking the document in at most as many calls as are given.
  pub spike_dump_write_succeeds :
      (ctx : DumpContext) (answers : DumpAnswers) (snapshots : List (Snapshot F))
      (anomaly : AnomalyResult F) (t : ℕ)
      → IsShort (dumped_value answers snapshots anomaly t)
      → 0 < length snapshots
      → length (dumped_path ctx answers t) < path_max
      → answers.allocated ≡ true
      → ((n : ℕ) → granted n ≡ true)
      → length (print (dumped_value answers snapshots anomaly t)) < max_size
      → AllWell (print (dumped_value answers snapshots anomaly t)) answers.file
      → (cs : List Change) × (spike_dump_write granted ctx answers snapshots anomaly t
          ≡ some (ok, record ctx { dump_count = ctx.dump_count + 1 }, cs))
  unfolding spike_dump_write save
  spike_dump_write_succeeds ctx answers snapshots anomaly t short some_left fits made lasts small
        well =
      let filepath = dumped_path ctx answers t in
      let v = dumped_value answers snapshots anomaly t in
      let out = emit granted v first_writer in
      let (written, success) = emit_prints granted v first_writer first_writer-IsGood short in
      let good : out.0 ≡ ok = success lasts (omega arith) in
      let (valid, text, _) = written good in
      let clean = valid.clean in
      let (cs, stored) = write_atomic_succeeds filepath (print v) answers.file well (omega arith) in
      let doc = document_saved ctx answers filepath snapshots anomaly t answers.allocated in
      let more : (length snapshots == 0) ≡ false = ground arith in
      let room : leb path_max (length filepath) ≡ false = ground arith in
      let saved : save ctx answers.file filepath out
          ≡ counted ctx (write_atomic filepath out.1.text answers.file) =
        ground arith in
      (
        cs,
        rw more (
            rw room (
              doc
              ∙ rw made (
                  saved
                  ∙ ap (λ x. counted ctx (write_atomic filepath x answers.file)) text
                  ∙ ap (counted ctx) stored))),
      )
