-- ===== src/Logs/Kept.antt =====
-- What the clean-up by total size leaves, when every file can be deleted.
use spiketrace.Prelude.{
  ℕ, ◌+◌, ◌-◌, ◌*◌, ◌%◌, ◌^◌, ◌≤◌, ◌<◌, ◌≡◌, refl, ap, subst, true, false, ◌&&◌, List, [], ◌∷◌,
  ◌++◌, map, arith, ltb, leb, length, All, Bool-cases, inl, inr,
}
use spiketrace.Sorting.{qsort, Sorted, Sorted-split, All-qsort}
use spiketrace.Logs.{LogFile, Disk, compare_by_mtime_asc}
use spiketrace.Logs.Policies.{expired, can_delete, total_bytes, size_loop, cleanup_by_size}
use spiketrace.Logs.Sorting.{bytes, IsLive, CanGo, Older, bytes-qsort, qsort_asc}

-- each file, at its turn, is deleted while the files from it on are above the limit
abbrev pub Needed : ℕ → List LogFile → List LogFile → Type 0
Needed limit [] kept = Unit {0}
Needed limit (f ∷ gone) kept = (limit < bytes (f ∷ gone ++ kept)) × Needed limit gone kept

total_bytes-bytes :
    (fs : List LogFile) (sum : ℕ) → sum + bytes fs < 2 ^ 64 → total_bytes fs sum ≡ sum + bytes fs
unfolding total_bytes bytes
total_bytes-bytes [] sum h = omega arith
total_bytes-bytes (f ∷ fs) sum h = elim (Bool-cases f.valid) [
  | inl live ↦
      let small : (sum + f.size_bytes) % 2 ^ 64 ≡ sum + f.size_bytes = ground arith in
      let ih = total_bytes-bytes fs (sum + f.size_bytes) (ground arith) in ground (arith, small, ih)
  | inr dead ↦ ground (arith, total_bytes-bytes fs sum (ground arith))
]

-- the loop stops at the first place where enough is freed
size_loop-split :
    (disk : Disk) (limit to_free freed : ℕ) (fs : List LogFile)
    → All IsLive fs
    → All (CanGo disk) fs
    → freed + bytes fs ≡ to_free + limit
    → freed + bytes fs < 2 ^ 64
    → (gone : List LogFile) × (kept : List LogFile) × (fs ≡ gone ++ kept)
      × (size_loop disk to_free freed fs ≡ (map expired gone ++ kept, length gone))
      × (bytes kept ≤ limit)
      × Needed limit gone kept
unfolding size_loop bytes
size_loop-split disk limit to_free freed [] lives goes e small =
    ([], [], refl, refl, omega arith, tt)
size_loop-split disk limit to_free freed (f ∷ fs) (live, lives) (go, goes) e small =
    elim (Bool-cases (ltb freed to_free)) [
      | inl more ↦
          let freed' = freed + f.size_bytes in
          let wrap : freed' % 2 ^ 64 ≡ freed' = ground arith in
          let (gone, kept, parts, result, low, needed) =
            size_loop-split disk limit to_free freed' fs lives goes (ground arith) (ground arith) in
          let both : (f.valid && can_delete disk f) ≡ true = ground arith in
          let same : bytes fs ≡ bytes (gone ++ kept) = ap bytes parts in
          (
            f ∷ gone,
            kept,
            ap (◌∷◌ f) parts,
            rw more (rw both (rw wrap (rw result refl))),
            low,
            (ground (arith, same), needed),
          )
      | inr enough ↦ ([], f ∷ fs, refl, rw enough refl, ground arith, tt)
    ]

-- `cleanup_by_size` on valid files that can all be deleted, of less than 2^64 bytes together and
-- more than the limit: sorted by modification time, the files fall into those deleted, marked
-- invalid and counted, and those kept. The kept ones are within the limit, none of them is older
-- than a deleted one, and each deletion was made while the files from there on exceeded the limit.
pub cleanup_by_size_keeps :
    (disk : Disk) (mib : ℕ) (files : List LogFile)
    → All IsLive files
    → All (CanGo disk) files
    → bytes files < 2 ^ 64
    → mib * 1024 * 1024 < bytes files
    → let limit = mib * 1024 * 1024 in
      (gone : List LogFile) × (kept : List LogFile) × (qsort compare_by_mtime_asc files
        ≡ gone ++ kept)
      × (cleanup_by_size disk mib files ≡ (map expired gone ++ kept, length gone))
      × (bytes kept ≤ limit)
      × Needed limit gone kept
      × All (λ f. All (Older f) kept) gone
unfolding cleanup_by_size
cleanup_by_size_keeps disk mib files lives goes small over =
    let limit = mib * 1024 * 1024 in
    let total = total_bytes-bytes files 0 (omega arith) in
    let sorted = qsort compare_by_mtime_asc files in
    let same = bytes-qsort compare_by_mtime_asc files in
    let above : leb (total_bytes files 0) limit ≡ false = ground arith in
    let (gone, kept, parts, result, low, needed) =
      size_loop-split disk limit (total_bytes files 0 - limit) 0 sorted
        (All-qsort IsLive compare_by_mtime_asc files lives)
        (All-qsort (CanGo disk) compare_by_mtime_asc files goes) (omega arith) (omega arith) in
    (
      gone,
      kept,
      parts,
      rw above result,
      low,
      needed,
      Sorted-split Older gone kept (subst (Sorted Older) parts (qsort_asc files lives)),
    )
