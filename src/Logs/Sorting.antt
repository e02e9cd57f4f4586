-- ===== src/Logs/Sorting.antt =====
-- `qsort` by modification time: it keeps the files and puts them in order.
use spiketrace.Prelude.{ℕ, ◌+◌, ◌≡◌, refl, true, List, [], ◌∷◌, arith, if◌then◌else◌, All}
use spiketrace.Prelude.Int.{ℤ, ◌≤ℤ◌}
use spiketrace.Logs.{LogFile, Disk, compare_by_mtime_asc, compare_by_mtime_desc}
use spiketrace.Sorting.{insert, qsort, Sorted, Sorted-qsort}
use spiketrace.Logs.Policies.{can_delete}

-- the sum of the sizes of the valid files
unfoldable pub bytes : List LogFile → ℕ
bytes [] = 0
bytes (f ∷ fs) = (if f.valid then f.size_bytes else 0) + bytes fs

abbrev pub CanGo : Disk → LogFile → Type 0
CanGo disk f = can_delete disk f ≡ true

abbrev pub IsLive : LogFile → Type 0
IsLive f = f.valid ≡ true

bytes-insert :
    (cmp : LogFile → LogFile → ℤ) (f : LogFile) (gs : List LogFile)
    → bytes (insert cmp f gs) ≡ bytes (f ∷ gs)
unfolding insert bytes
bytes-insert cmp f [] = refl
bytes-insert cmp f (g ∷ gs) = ground (arith, bytes-insert cmp f gs)

pub bytes-qsort :
    (cmp : LogFile → LogFile → ℤ) (fs : List LogFile) → bytes (qsort cmp fs) ≡ bytes fs
unfolding qsort bytes
bytes-qsort cmp [] = refl
bytes-qsort cmp (f ∷ fs) = omega (arith, bytes-insert cmp f (qsort cmp fs), bytes-qsort cmp fs)

abbrev pub Older : LogFile → LogFile → Type 0
Older f g = f.mtime ≤ℤ g.mtime

abbrev pub Newer : LogFile → LogFile → Type 0
Newer f g = g.mtime ≤ℤ f.mtime

pub qsort_asc : (fs : List LogFile) → All IsLive fs → Sorted Older (qsort compare_by_mtime_asc fs)
unfolding compare_by_mtime_asc
qsort_asc fs lives =
    Sorted-qsort IsLive compare_by_mtime_asc Older (λ f g a b h. ground arith)
      (λ f g a b h. ground arith) (λ f g h a b. omega arith) fs lives

pub qsort_desc : (fs : List LogFile) → All IsLive fs → Sorted Newer (qsort compare_by_mtime_desc fs)
unfolding compare_by_mtime_desc compare_by_mtime_asc
qsort_desc fs lives =
    Sorted-qsort IsLive compare_by_mtime_desc Newer (λ f g a b h. ground arith)
      (λ f g a b h. ground arith) (λ f g h a b. omega arith) fs lives
