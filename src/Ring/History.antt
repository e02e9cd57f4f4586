-- ===== src/Ring/History.antt =====
-- The ring buffer against a list: the snapshots of the last pushes, the newest first.
use Prim.Native.Nat.{min}
use spiketrace.Prelude.{
  ℕ, zero, some, suc, ◌+◌, ◌%◌, ◌≤◌, ◌<◌, ◌≡◌, ◌≢◌, refl, ap, false, List, [], ◌∷◌, arith, inl, inr,
  ◌==◌, if◌then◌else◌, length, get_or, set, take, get_or-set_self, get_or-set_ne, Bool-cases,
}
use spiketrace.Prelude.Int.{ℤ, pos, negsuc, eqb_ℤ, eqb_ℤ_refl}
use spiketrace.Double.{Double}
use spiketrace.Snapshot.{Snapshot}
use spiketrace.Ring.{
  RingBuffer, capacity, slot, blank, fresh, stamp, store, copy, recent, is_hot, origin_loop,
  find_spike_origin,
}
use spiketrace.Ring.Bounds.{IsValid, fresh-IsValid, store-IsValid}

abbrev pub History : Type 0 → Type 0
History F = List (Snapshot F)

-- the index of the last of a run of that length that starts at 0, or -1 for an empty one
abbrev pub last_index : ℕ → ℤ
last_index zero = negsuc 0
last_index (suc n) = pos n

last_index-ne : (i : ℕ) → eqb_ℤ (last_index i) (pos i) ≡ false
unfolding eqb_ℤ
last_index-ne zero = refl
last_index-ne (suc i) = ground arith

module _ {F : Type 0} ⦃d : Double F⦄ where
  -- the specification: what is remembered after one more snapshot
  abbrev pub remember : Snapshot F → History F → History F
  remember s h = take capacity (s ∷ h)

  -- how many of the newest snapshots in a row have the process above the threshold
  unfoldable pub hot_run : ℤ → F → History F → ℕ
  hot_run pid threshold [] = 0
  hot_run pid threshold (s ∷ h) =
      if is_hot pid threshold s then suc (hot_run pid threshold h) else 0

  abbrev pub contents : RingBuffer F → History F
  contents rb = copy rb.snapshots rb.tail 0 rb.count

  length-copy : (buf : History F) (tail i n : ℕ) → length (copy buf tail i n) ≡ n
  unfolding copy
  length-copy buf tail i zero = refl
  length-copy buf tail i (suc n) = ap suc (length-copy buf tail (suc i) n)

  pub length-contents : (rb : RingBuffer F) → length (contents rb) ≡ rb.count
  length-contents rb = length-copy rb.snapshots rb.tail 0 rb.count

  take-copy :
      (buf : History F) (tail i k n : ℕ) → take k (copy buf tail i n) ≡ copy buf tail i (min k n)
  unfolding copy
  take-copy buf tail i zero n = let e : min zero n ≡ zero = omega arith in rw e
  take-copy buf tail i (suc k) zero = let e : min (suc k) zero ≡ zero = omega arith in rw e
  take-copy buf tail i (suc k) (suc n) =
      let e : min (suc k) (suc n) ≡ suc (min k n) = omega arith in
      rw e (ap (◌∷◌ (get_or buf (slot tail i) blank)) (take-copy buf tail (suc i) k n))

  -- after a write at `tail` the older snapshots are one index further back
  copy-set :
      (buf : History F) (tail : ℕ) (s : Snapshot F) (i n : ℕ)
      → tail < capacity
      → i + n < capacity
      → copy (set buf tail s) ((tail + 1) % capacity) (suc i) n ≡ copy buf tail i n
  unfolding copy
  copy-set buf tail s i zero t h = refl
  copy-set buf tail s i (suc n) t h =
      let moved : slot ((tail + 1) % capacity) (suc i) ≡ slot tail i = omega arith in
      let other : tail ≢ slot tail i = omega arith in
      rw (moved, get_or-set_ne buf s blank other)
        (ap (◌∷◌ (get_or buf (slot tail i) blank)) (copy-set buf tail s (suc i) n t (omega arith)))

  copy-written :
      (buf : History F) (tail : ℕ) (s : Snapshot F) (n : ℕ)
      → tail < capacity
      → length buf ≡ capacity
      → n < capacity
      → copy (set buf tail s) ((tail + 1) % capacity) 0 (suc n) ≡ s ∷ copy buf tail 0 n
  unfolding copy
  copy-written buf tail s n t l h =
      let newest : slot ((tail + 1) % capacity) 0 ≡ tail = omega arith in
      rw (
        newest,
        get_or-set_self buf tail s blank (omega arith),
        copy-set buf tail s 0 n t (omega arith),
      )

  contents-remember :
      (buf : History F) (tail count : ℕ) (s : Snapshot F)
      → count ≤ capacity
      → remember s (copy buf tail 0 count) ≡ s ∷ copy buf tail 0 (min 59 count)
  contents-remember buf tail count s h = ap (◌∷◌ s) (take-copy buf tail 0 59 count)

  contents-store :
      (now : ℕ) (s : Snapshot F) (rb : RingBuffer F)
      → IsValid rb
      → contents (store now s rb) ≡ remember (stamp now s) (contents rb)
  unfolding store
  contents-store now s rb v = elim (Bool-cases (rb.count == capacity)) [
    | inl full ↦
        let e : rb.count ≡ suc 59 = ground arith in
        let m : min 59 rb.count ≡ 59 = omega arith in
        rw (full, contents-remember rb.snapshots rb.tail rb.count (stamp now s) v.count_le, m, e)
          (copy-written rb.snapshots rb.tail (stamp now s) 59 v.tail_lt v.storage (omega arith))
    | inr room ↦
        let lt : rb.count < capacity = ground arith in
        let e : rb.count + 1 ≡ suc rb.count = omega arith in
        let m : min 59 rb.count ≡ rb.count = omega arith in
        rw (room, contents-remember rb.snapshots rb.tail rb.count (stamp now s) v.count_le, m, e)
          (copy-written rb.snapshots rb.tail (stamp now s) rb.count v.tail_lt v.storage lt)
  ]

  -- `ringbuf_push` on a valid buffer keeps it valid, and what the buffer holds afterwards is the
  -- stamped snapshot in front of what it held, cut to the 60 newest.
  pub store_refines :
      (now : ℕ) (s : Snapshot F) (rb : RingBuffer F)
      → IsValid rb
      → IsValid (store now s rb)
        × (contents (store now s rb) ≡ remember (stamp now s) (contents rb))
  store_refines now s rb v = (store-IsValid now s rb v, contents-store now s rb v)

  -- `ringbuf_get_recent` copies the newest n snapshots of a valid buffer, newest first, or all that
  -- there are, and `*out_count` is their number.
  pub recent_refines :
      (rb : RingBuffer F) (n : ℕ)
      → IsValid rb
      → ((recent rb n).1 ≡ take n (contents rb)) × ((recent rb n).0 ≡ min n rb.count)
  unfolding recent copy
  recent_refines rb n v = ground (arith, take-copy rb.snapshots rb.tail 0 n rb.count)

  hot_run-nil :
      (pid : ℤ) (threshold : F) (buf : History F) (tail n : ℕ)
      → n ≡ 0
      → hot_run pid threshold (copy buf tail 0 n) ≡ 0
  unfolding hot_run copy
  hot_run-nil pid threshold buf tail zero e = refl
  hot_run-nil pid threshold buf tail (suc n) e = absurd (omega arith)

  origin_loop-hot_run :
      (rb : RingBuffer F) (pid : ℤ) (threshold : F) (i n : ℕ)
      → origin_loop rb pid threshold (last_index i) i n
        ≡ last_index (i + hot_run pid threshold (copy rb.snapshots rb.tail i n))
  unfolding origin_loop hot_run copy
  origin_loop-hot_run rb pid threshold i zero = let e : i + 0 ≡ i = omega arith in rw e
  origin_loop-hot_run rb pid threshold i (suc n) =
      let snap = get_or rb.snapshots (slot rb.tail i) blank in
      elim (Bool-cases (is_hot pid threshold snap)) [
        | inl hot ↦
            let older = hot_run pid threshold (copy rb.snapshots rb.tail (suc i) n) in
            let e : i + suc older ≡ suc i + older = omega arith in
            rw (hot, eqb_ℤ_refl (pos i), e) (origin_loop-hot_run rb pid threshold (suc i) n)
        | inr cold ↦ let e : i + 0 ≡ i = omega arith in rw (cold, last_index-ne i, e)
      ]

  pub find_spike_origin_refines :
      (rb : RingBuffer F) (pid : ℤ) (threshold : F)
      → find_spike_origin (some rb) pid threshold ≡ last_index (hot_run pid threshold (contents rb))
  unfolding find_spike_origin
  find_spike_origin_refines rb pid threshold =
      let r = hot_run pid threshold (contents rb) in
      let e : 0 + r ≡ r = omega arith in
      elim (Bool-cases (rb.count == 0)) [
        | inl empty ↦
            rw (empty, hot_run-nil pid threshold rb.snapshots rb.tail rb.count (ground arith))
        | inr full ↦ rw (full, ← e) (origin_loop-hot_run rb pid threshold 0 rb.count)
      ]

  -- every `ringbuf_push` of a list of snapshots, each with the clock reading at its push
  abbrev pub push_all : List (ℕ × Snapshot F) → RingBuffer F → RingBuffer F
  push_all [] rb = rb
  push_all ((now, s) ∷ ps) rb = push_all ps (store now s rb)

  abbrev pub remember_all : List (ℕ × Snapshot F) → History F → History F
  remember_all [] h = h
  remember_all ((now, s) ∷ ps) h = remember_all ps (remember (stamp now s) h)

  push_all-contents :
      (ps : List (ℕ × Snapshot F)) (rb : RingBuffer F)
      → IsValid rb
      → IsValid (push_all ps rb) × (contents (push_all ps rb) ≡ remember_all ps (contents rb))
  push_all-contents [] rb v = (v, refl)
  push_all-contents ((now, s) ∷ ps) rb v =
      let (valid, step) = store_refines now s rb v in
      rw (← step) (push_all-contents ps (store now s rb) valid)

  -- From `ringbuf_init` on, after any sequence of pushes: `ringbuf_get_recent` returns the newest
  -- snapshots of the specification's history, which keeps the last 60 pushes, newest first.
  pub recent-push_all :
      (ps : List (ℕ × Snapshot F)) (n : ℕ)
      → (recent (push_all ps fresh) n).1 ≡ take n (remember_all ps [])
  unfolding copy
  recent-push_all ps n =
      let (valid, held) = push_all-contents ps fresh fresh-IsValid in
      rw (← held) (recent_refines (push_all ps fresh) n valid).0
