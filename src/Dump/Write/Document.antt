-- ===== src/Dump/Write/Document.antt =====
-- The calls of `spike_dump_write` build the dump of the schema.
use mathlib.Core.Path.{fun_ext}
use spiketrace.Prelude.{ℕ, ◌≡◌, ap, sym, ◌∙◌, Bool, List, [], ◌∷◌, ◌++◌, Bytes, codes}
use spiketrace.Double.{Double}
use spiketrace.Snapshot.{Snapshot}
use spiketrace.Anomaly.Types.{AnomalyResult}
use spiketrace.Json.{Writer, Result, and_then}
use spiketrace.Json.Values.{spkt_json_end_object}
use spiketrace.Json.Document.{Value, emit, emit_items}
use spiketrace.Dump.{◌>>◌, each, spkt_ns_to_seconds}
use spiketrace.Dump.Snapshots.{serialize_snapshot}
use spiketrace.Dump.Trigger.{serialize_anomaly}
use spiketrace.Dump.Schema.{
  members, items_of, snapshot_value, anomaly_value, created, dump_members, dump_value,
}
use spiketrace.Dump.Follow.{
  follow, follow_members, follow-emit, object-emit, each-emit, and_then_assoc, done,
}
use spiketrace.Dump.Agreement.{serialize_anomaly-emit, serialize_snapshot-emit}
use spiketrace.Dump.Write.{created_at, build_document}

module _ {F : Type 0} ⦃d : Double F⦄ (granted : ℕ → Bool) where
  -- the timestamp, and the members behind it
  created_at-follow :
      (iso : Bytes) (rest : List (Bytes × Value F)) (next : Writer → Result)
      → created_at granted iso >> follow_members granted (members rest) next
        ≡ follow_members granted (members (created iso ++ rest)) next
  unfolding created_at follow follow_members
  created_at-follow [] rest next = fun_ext λ w. done _ w
  created_at-follow (c ∷ cs) rest next = fun_ext λ w. and_then_assoc _ _ _

  snapshots-emit :
      (t : ℕ) (ss : List (Snapshot F))
      → each (serialize_snapshot granted t) ss ≡ emit_items granted (items_of (snapshot_value t) ss)
  snapshots-emit t ss = fun_ext (
      each-emit granted (serialize_snapshot granted t) (snapshot_value t)
        (serialize_snapshot-emit granted t) ss)

  trigger-follow :
      (a : AnomalyResult F) (next : Writer → Result)
      → serialize_anomaly granted a >> next ≡ follow granted (anomaly_value a) next
  trigger-follow a next = fun_ext λ w.
      ap (λ out. and_then out next) (serialize_anomaly-emit granted a w)
      ∙ sym (follow-emit granted (anomaly_value a) next w)

  -- The calls that `spike_dump_write` and its three serializers make, one after another and stopping
  -- at the first that fails, do on any writer what writing the dump of the schema as one JSON value
  -- does: the same keys, values and brackets in the same order, with the same result.
  pub build_document-emit :
      (iso : Bytes) (snapshots : List (Snapshot F)) (a : AnomalyResult F) (t : ℕ) (w : Writer)
      → build_document granted iso snapshots a t w ≡ emit granted (dump_value iso snapshots a t) w
  unfolding build_document dump_value follow follow_members
  build_document-emit iso snapshots a t w =
      let close = spkt_json_end_object granted in
      let last : List (Bytes × Value F) =
        (codes "snapshots", Value.array (items_of (snapshot_value t) snapshots)) ∷ [] in
      let rest : List (Bytes × Value F) =
        (codes "uptime_seconds", Value.double (spkt_ns_to_seconds t))
        ∷ (codes "dump_timestamp_ns", Value.uint t)
        ∷ (codes "trigger", anomaly_value a)
        ∷ last in
      rw (snapshots-emit t snapshots) (
        rw (trigger-follow a (follow_members granted (members last) close)) (
          rw (created_at-follow iso rest close)
            (object-emit granted (members (dump_members iso snapshots a t)) w)))
