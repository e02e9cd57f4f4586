-- ===== src/Daemon/Dumped.antt =====
-- What a round hands to `spike_dump_write`.
use spiketrace.Prelude.{
  ℕ, zero, suc, ◌-◌, ◌≤◌, ◌<◌, ◌≡◌, ap, ◌∙◌, true, ◌&&◌, some, arith, ltb, leb, if◌then◌else◌,
  length, take, length-take,
}
use spiketrace.Prelude.Int.{pos, leb_ℤ, ltb_ℤ}
use spiketrace.Double.{Double}
use spiketrace.Snapshot.{Snapshot}
use spiketrace.Config.Types.{Config}
use spiketrace.Anomaly.Types.{AnomalyResult}
use spiketrace.Ring.{RingBuffer, stamp, store, recent, find_spike_origin}
use spiketrace.Ring.Bounds.{IsValid}
use spiketrace.Ring.History.{
  last_index, remember, hot_run, contents, length-contents, store_refines, recent_refines,
  find_spike_origin_refines,
}
use spiketrace.Daemon.Round.{context_size, origin_threshold, with_origin, to_dump}

-- the index of the oldest snapshot of a run, if it is among those dumped, and 0 otherwise
unfoldable pub origin_in : ℕ → ℕ → ℕ
origin_in run dumped = if leb run dumped then run - 1 else 0

origin_in-eq :
    (run dumped : ℕ)
    → (if leb_ℤ (pos 0) (last_index run) && ltb_ℤ (last_index run) (pos dumped)
        then last_index run
        else pos 0)
      ≡ pos (origin_in run dumped)
unfolding origin_in
origin_in-eq zero dumped = ground arith
origin_in-eq (suc run) dumped = ground arith

module _ {F : Type 0} ⦃d : Double F⦄ where
  -- On a report in a round with a valid ring buffer, with a context of 1 to 60 snapshots: what
  -- `spike_dump_write` gets is never empty. It is the new snapshot, stamped, in front of those that
  -- were remembered, as many as the context asks for, and the result with the place of the
  -- spike's start: the last index of the run of snapshots from the newest back in which the process
  -- is at the threshold, if the run is no longer than what is dumped, and 0 otherwise.
  pub to_dump_refines :
      (config : Config F) (now : ℕ) (snap : Snapshot F) (rb : RingBuffer F)
      (result : AnomalyResult F)
      → IsValid rb
      → 1 ≤ config.context_snapshots_per_dump
      → config.context_snapshots_per_dump ≤ 60
      → let history = remember (stamp now snap) (contents rb) in
        let snaps = take config.context_snapshots_per_dump history in
        let run = hot_run result.spike_pid (origin_threshold config result) history in
        (0 < length snaps)
        × (to_dump config (store now snap rb) result
            ≡ some
                (snaps, record result { origin_snapshot_idx = pos (origin_in run (length snaps)) }))
  unfolding to_dump with_origin
  to_dump_refines config now snap rb result valid low high =
      let rb' = store now snap rb in
      let n = config.context_snapshots_per_dump in
      let threshold = origin_threshold config result in
      let (valid', held) = store_refines now snap rb valid in
      let history = remember (stamp now snap) (contents rb) in
      let size : context_size config ≡ n = ground arith in
      let (snaps_eq, count_eq) = recent_refines rb' n valid' in
      let stored = length-contents rb' in
      let same_len = ap length held in
      let dumped = take n history in
      let len = length-take n history in
      let some_snap : 0 < length dumped = omega (arith, len, low) in
      let count : (recent rb' n).0 ≡ length dumped =
        omega (arith, count_eq, len, stored, same_len) in
      let snaps : (recent rb' n).1 ≡ dumped = snaps_eq ∙ ap (take n) held in
      let origin : find_spike_origin (some rb') result.spike_pid threshold
          ≡ last_index (hot_run result.spike_pid threshold history) =
        find_spike_origin_refines rb' result.spike_pid threshold
        ∙ ap (λ h. last_index (hot_run result.spike_pid threshold h)) held in
      let positive : ltb 0 (length dumped) ≡ true = ground arith in
      (
        some_snap,
        rw size (
            rw count (
              rw snaps (
                rw positive (
                  rw origin (
                    ap (λ z. some (dumped, record result { origin_snapshot_idx = z }))
                      (origin_in-eq (hot_run result.spike_pid threshold history)
                        (length dumped))))))),
      )
