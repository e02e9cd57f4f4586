-- ===== src/Ring.antt =====
-- src/ringbuf.c: the last 60 snapshots in a circular array. A pointer that the code compares with
-- NULL is an `Option`. The mutex is never contended in the single-threaded daemon, so only the
-- outcome of its initialisation is an argument, and so is the reading of the monotonic clock.
pub mod Bounds
pub mod History
mod Tests
use spiketrace.Prelude.{
  ℕ, zero, suc, ◌+◌, ◌-◌, ◌%◌, Bool, false, true, not, ◌&&◌, Option, none, some, List, [], ◌∷◌, ltb,
  ◌==◌, if◌then◌else◌, get_or, set, take, replicate,
}
use spiketrace.Prelude.Int.{ℤ, pos, negsuc, eqb_ℤ}
use spiketrace.Status.{Status, ok, err_null_pointer, err_invalid_param}
use spiketrace.Double.{Double, nought}
use spiketrace.Snapshot.{Snapshot, ProcEntry}

-- `SPKT_RINGBUF_CAPACITY`
abbrev pub capacity : ℕ
capacity = 60

-- `ringbuffer_t`, less its lock
pub record RingBuffer (F : Type 0) : Type 0 where
  pub snapshots : List (Snapshot F)
  pub head : ℕ
  pub tail : ℕ
  pub count : ℕ

-- the slot of the i-th newest snapshot
abbrev pub slot : ℕ → ℕ → ℕ
slot tail i = (tail + capacity - i - 1) % capacity

module _ {F : Type 0} ⦃d : Double F⦄ where
  -- a snapshot of zero bytes
  abbrev pub blank : Snapshot F
  blank = record {
    timestamp_monotonic_ns = 0;
    cpu = record {
      global_usage_pct = nought;
      iowait_pct = nought;
      per_core_usage_pct = [];
      valid_core_count = 0;
    };
    mem = record {
      total_ram_kib = 0;
      available_ram_kib = 0;
      free_ram_kib = 0;
      active_ram_kib = 0;
      inactive_ram_kib = 0;
      dirty_ram_kib = 0;
      slab_ram_kib = 0;
      swap_total_ram_kib = 0;
      swap_free_ram_kib = 0;
      shmem_ram_kib = 0;
    };
    procs = record {
      entries = [];
      valid_entry_count = 0;
      top_rss_entries = [];
      valid_rss_count = 0;
    };
  }

  abbrev pub fresh : RingBuffer F
  fresh = record { snapshots = replicate capacity blank; head = 0; tail = 0; count = 0 }

  -- `mutex_made` is the outcome of `pthread_mutex_init`
  pub init : Bool → Option (RingBuffer F) → Status × Option (RingBuffer F)
  init mutex_made none = (err_null_pointer, none)
  init mutex_made (some rb) = if mutex_made then (ok, some fresh) else (err_invalid_param, some rb)

  -- the lock is destroyed, nothing else changes
  pub cleanup : Option (RingBuffer F) → Status
  cleanup none = err_null_pointer
  cleanup (some rb) = ok

  abbrev pub stamp : ℕ → Snapshot F → Snapshot F
  stamp now s =
      if s.timestamp_monotonic_ns == 0 then record s { timestamp_monotonic_ns = now } else s

  -- what `ringbuf_push` does to a buffer once its pointers are checked
  pub store : ℕ → Snapshot F → RingBuffer F → RingBuffer F
  store now s rb = record {
    snapshots = set rb.snapshots rb.tail (stamp now s);
    head = if rb.count == capacity then (rb.head + 1) % capacity else rb.head;
    tail = (rb.tail + 1) % capacity;
    count = if rb.count == capacity then rb.count else rb.count + 1;
  }

  pub push : ℕ → Option (RingBuffer F) → Option (Snapshot F) → Status × Option (RingBuffer F)
  push now none s = (err_null_pointer, none)
  push now (some rb) none = (err_null_pointer, some rb)
  push now (some rb) (some s) = (ok, some (store now s rb))

  -- the copying loop, with `left` rounds to go from index `i`
  pub copy : List (Snapshot F) → ℕ → ℕ → ℕ → List (Snapshot F)
  copy buf tail i zero = []
  copy buf tail i (suc left) = get_or buf (slot tail i) blank ∷ copy buf tail (suc i) left

  -- the part of `ringbuf_get_recent` under the lock: `*out_count` and what is written to `dest`
  pub recent : RingBuffer F → ℕ → ℕ × List (Snapshot F)
  unfolding copy
  recent rb n =
      let n' = if ltb n rb.count then n else rb.count in
      if n' == 0 then (n', []) else (n', copy rb.snapshots rb.tail 0 n')

  -- `dest_given` and `count_given` tell whether the output pointers are set
  pub get_recent : Option (RingBuffer F) → Bool → ℕ → Bool → Status × Option (ℕ × List (Snapshot F))
  get_recent none dest_given n count_given = (err_null_pointer, none)
  get_recent (some rb) dest_given n count_given =
      if dest_given && count_given then (ok, some (recent rb n)) else (err_null_pointer, none)

  pub count : Option (RingBuffer F) → ℕ
  count none = 0
  count (some rb) = rb.count

  -- the inner loop over `entries[j]`, with `left` entries to go
  pub entry_hot : ℤ → F → List (ProcEntry F) → ℕ → Bool
  entry_hot pid threshold es zero = false
  entry_hot pid threshold [] (suc left) = false
  entry_hot pid threshold (e ∷ es) (suc left) =
      if eqb_ℤ e.pid pid && d.le threshold e.cpu_usage_pct
      then true
      else entry_hot pid threshold es left

  abbrev pub is_hot : ℤ → F → Snapshot F → Bool
  is_hot pid threshold s = entry_hot pid threshold s.procs.entries s.procs.valid_entry_count

  -- the outer loop, from index `i` with `last` for `last_found_idx`
  pub origin_loop : RingBuffer F → ℤ → F → ℤ → ℕ → ℕ → ℤ
  origin_loop rb pid threshold last i zero = last
  origin_loop rb pid threshold last i (suc left) =
      let snap = get_or rb.snapshots (slot rb.tail i) blank in
      let last' = if is_hot pid threshold snap then pos i else last in
      let rest = origin_loop rb pid threshold last' (suc i) left in
      if eqb_ℤ last' (pos i) then rest else last'

  pub find_spike_origin : Option (RingBuffer F) → ℤ → F → ℤ
  unfolding origin_loop entry_hot
  find_spike_origin none pid threshold = negsuc 0
  find_spike_origin (some rb) pid threshold =
      if rb.count == 0 then negsuc 0 else origin_loop rb pid threshold (negsuc 0) 0 rb.count
