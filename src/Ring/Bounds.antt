-- ===== src/Ring/Bounds.antt =====
-- The representation invariant of `ringbuffer_t`: every index that the code computes is inside the
-- array, and head, tail and count agree.
use spiketrace.Prelude.{
  ℕ, ◌+◌, ◌%◌, ◌≤◌, ◌<◌, ◌≡◌, refl, arith, length, length-set, length-replicate,
}
use spiketrace.Double.{Double}
use spiketrace.Snapshot.{Snapshot}
use spiketrace.Ring.{RingBuffer, capacity, slot, blank, fresh, stamp, store}

module _ {F : Type 0} where
  pub record IsValid (rb : RingBuffer F) : Type 0 where
    pub storage : length rb.snapshots ≡ capacity
    pub head_lt : rb.head < capacity
    pub tail_lt : rb.tail < capacity
    pub count_le : rb.count ≤ capacity
    pub tail_eq : rb.tail ≡ (rb.head + rb.count) % capacity

  module _ ⦃d : Double F⦄ where
    pub fresh-IsValid : IsValid (fresh {F = F})
    fresh-IsValid = record {
      storage = length-replicate capacity (blank {F = F});
      head_lt = omega arith;
      tail_lt = omega arith;
      count_le = omega arith;
      tail_eq = refl;
    }

    pub store-IsValid :
        (now : ℕ) (s : Snapshot F) (rb : RingBuffer F) → IsValid rb → IsValid (store now s rb)
    unfolding store
    store-IsValid now s rb v = ground (arith, length-set rb.snapshots rb.tail (stamp now s))

    pub slot_in_bounds :
        (rb : RingBuffer F) (i : ℕ) → IsValid rb → slot rb.tail i < length rb.snapshots
    slot_in_bounds rb i v = omega arith
