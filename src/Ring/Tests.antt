-- ===== src/Ring/Tests.antt =====
-- Runs of the ring buffer, and its theorems at concrete inputs.
use spiketrace.Prelude.{ℕ, ◌≡◌, refl, some, List, [], ◌∷◌, take}
use spiketrace.Prelude.Int.{pos, eqb_ℤ}
use spiketrace.Double.Fixed.{Fixed, fixed_double, units}
use spiketrace.Snapshot.{Snapshot, ProcEntry}
use spiketrace.Ring.{RingBuffer, blank, fresh, store, copy, recent, find_spike_origin}
use spiketrace.Ring.Bounds.{IsValid, fresh-IsValid, store-IsValid}
use spiketrace.Ring.History.{
  contents, remember, remember_all, push_all, store_refines, recent-push_all,
}

abbrev busy : ℕ → ProcEntry Fixed
busy pct = record {
  pid = pos 7;
  ppid = pos 1;
  uid = 0;
  state = b'R';
  comm = [];
  cmdline = [];
  cpu_usage_pct = units pct;
  rss_kib = 0;
}

abbrev at : ℕ → ℕ → Snapshot Fixed
at time pct = record (blank {F = Fixed}) {
  timestamp_monotonic_ns = time;
  procs = record {
    entries = busy pct ∷ [];
    valid_entry_count = 1;
    top_rss_entries = [];
    valid_rss_count = 0;
  };
}

abbrev pushes : List (ℕ × Snapshot Fixed)
pushes = (5, at 1 0) ∷ (6, at 2 40) ∷ (7, at 0 50) ∷ []

abbrev three : RingBuffer Fixed
three = push_all pushes fresh

three-IsValid : IsValid three
three-IsValid = store-IsValid 7 _ _ (store-IsValid 6 _ _ (store-IsValid 5 _ _ fresh-IsValid))

-- the third snapshot had no timestamp of its own
recent-three : recent three 2 ≡ (2, at 7 50 ∷ at 2 40 ∷ [])
unfolding recent copy store
recent-three = refl

origin-three : find_spike_origin (some three) (pos 7) (units 30) ≡ pos 1
unfolding find_spike_origin store eqb_ℤ
origin-three = refl

store_refines_example :
    IsValid (store 9 (at 8 10) three)
    × (contents (store 9 (at 8 10) three) ≡ remember (at 8 10) (contents three))
store_refines_example = store_refines 9 (at 8 10) three three-IsValid

recent-push_all_example : (recent (push_all pushes fresh) 2).1 ≡ take 2 (remember_all pushes [])
recent-push_all_example = recent-push_all pushes 2
