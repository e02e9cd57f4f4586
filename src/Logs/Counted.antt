-- ===== src/Logs/Counted.antt =====
-- What the clean-up by number leaves, when every file can be deleted.
use spiketrace.Prelude.{
  ℕ, zero, suc, ◌+◌, ◌-◌, ◌<◌, ◌≡◌, refl, sym, ap, ◌∙◌, subst, true, false, ◌&&◌, List, [], ◌∷◌,
  ◌++◌, map, arith, leb, length, length-append, get_or-behind, set-behind, All,
}
use mathlib.Core.List.{append_assoc, append-nil}
use spiketrace.Sorting.{
  qsort, Sorted, Sorted-split, All-qsort, length-qsort, split, All-front, All-back,
}
use spiketrace.Logs.{LogFile, Disk, compare_by_mtime_desc}
use spiketrace.Logs.Policies.{expired, can_delete, no_file, count_loop, cleanup_by_count}
use spiketrace.Logs.Sorting.{IsLive, CanGo, Newer, qsort_desc}

map-append : (xs ys : List LogFile) → map expired (xs ++ ys) ≡ map expired xs ++ map expired ys
map-append [] ys = refl
map-append (x ∷ xs) ys = ap (◌∷◌ (expired x)) (map-append xs ys)

-- a list of `suc n` files ends with one
last_split :
    (n : ℕ) (fs : List LogFile)
    → length fs ≡ suc n
    → (front : List LogFile) × (f : LogFile) × (fs ≡ front ++ f ∷ []) × (length front ≡ n)
last_split n [] e = absurd (omega arith)
last_split zero (f ∷ []) e = ([], f, refl, refl)
last_split zero (f ∷ g ∷ fs) e = absurd (omega arith)
last_split (suc n) (f ∷ fs) e =
    let (front, g, parts, len) = last_split n fs (omega arith) in
    (f ∷ front, g, ap (◌∷◌ f) parts, omega arith)

-- one round: the file at the index goes
count_loop-round :
    (disk : Disk) (keep left deleted : ℕ) (pre post : List LogFile) (f : LogFile)
    → IsLive f
    → CanGo disk f
    → length pre ≡ keep + left
    → count_loop disk keep (suc left) (pre ++ f ∷ post) deleted
      ≡ count_loop disk keep left (pre ++ expired f ∷ post) (suc deleted)
unfolding count_loop
count_loop-round disk keep left deleted pre post f live go e =
    let found = get_or-behind pre post f no_file (keep + left) (sym e) in
    let both : (f.valid && can_delete disk f) ≡ true = ground arith in
    rw found (rw both (rw (set-behind pre post f (expired f) (keep + left) (sym e)) refl))

count_loop_deletes :
    (disk : Disk) (keep left deleted : ℕ) (kept front back : List LogFile)
    → All IsLive front
    → All (CanGo disk) front
    → length kept ≡ keep
    → length front ≡ left
    → count_loop disk keep left (kept ++ (front ++ back)) deleted
      ≡ (kept ++ (map expired front ++ back), left + deleted)
unfolding count_loop
count_loop_deletes disk keep zero deleted kept [] back lives goes e len =
    ap (λ n. (kept ++ back, n)) (omega arith)
count_loop_deletes disk keep zero deleted kept (f ∷ front) back lives goes e len =
    absurd (omega arith)
count_loop_deletes disk keep (suc left) deleted kept front back lives goes e len =
    let (init, f, parts, init_len) = last_split left front len in
    let lives' = subst (All IsLive) parts lives in
    let goes' = subst (All (CanGo disk)) parts goes in
    let (live, _) = All-back IsLive init (f ∷ []) lives' in
    let (go, _) = All-back (CanGo disk) init (f ∷ []) goes' in
    let group : kept ++ (front ++ back) ≡ (kept ++ init) ++ f ∷ back =
      rw parts (rw (append_assoc init (f ∷ []) back) (sym (append_assoc kept init (f ∷ back)))) in
    let after : kept ++ (map expired init ++ expired f ∷ back)
        ≡ kept ++ (map expired front ++ back) =
      rw parts (
        rw (map-append init (f ∷ []))
          (rw (append_assoc (map expired init) (expired f ∷ []) back) refl)) in
    let round =
      count_loop-round disk keep left deleted (kept ++ init) back f live go
        (omega (arith, length-append kept init)) in
    let ih =
      count_loop_deletes disk keep left (suc deleted) kept init (expired f ∷ back)
        (All-front IsLive init (f ∷ []) lives') (All-front (CanGo disk) init (f ∷ []) goes') e
        init_len in
    ap (λ files. count_loop disk keep (suc left) files deleted) group
    ∙ round
    ∙ ap (λ files. count_loop disk keep left files (suc deleted))
        (append_assoc kept init (expired f ∷ back))
    ∙ ih
    ∙ rw after (ap (λ n. (kept ++ (map expired front ++ back), n)) (omega arith))

-- `cleanup_by_count` on more than `max_count` valid files that can all be deleted: sorted by
-- modification time, newest first, the files fall into `max_count` that are kept and the rest,
-- which are deleted, marked invalid and counted. No deleted file is newer than a kept one.
pub cleanup_by_count_keeps :
    (disk : Disk) (max_count : ℕ) (files : List LogFile)
    → All IsLive files
    → All (CanGo disk) files
    → max_count < length files
    → (kept : List LogFile) × (gone : List LogFile) × (qsort compare_by_mtime_desc files
        ≡ kept ++ gone)
      × (cleanup_by_count disk max_count files ≡ (kept ++ map expired gone, length gone))
      × (length kept ≡ max_count)
      × All (λ f. All (Newer f) gone) kept
unfolding cleanup_by_count
cleanup_by_count_keeps disk max_count files lives goes over =
    let sorted = qsort compare_by_mtime_desc files in
    let same = length-qsort compare_by_mtime_desc files in
    let (kept, gone, parts, len) = split max_count sorted (omega arith) in
    let live = subst (All IsLive) parts (All-qsort IsLive compare_by_mtime_desc files lives) in
    let go =
      subst (All (CanGo disk)) parts (All-qsort (CanGo disk) compare_by_mtime_desc files goes) in
    let count : length gone ≡ length files - max_count =
      omega (arith, ap length parts, length-append kept gone) in
    let above : leb (length files) max_count ≡ false = ground arith in
    let none_after = append-nil gone in
    let loop =
      count_loop_deletes disk max_count (length files - max_count) 0 kept gone []
        (All-back IsLive kept gone live) (All-back (CanGo disk) kept gone go) len count in
    let start : sorted ≡ kept ++ (gone ++ []) = parts ∙ ap (λ x. kept ++ x) (sym none_after) in
    (
      kept,
      gone,
      parts,
      rw above (
          ap (λ x. count_loop disk max_count (length files - max_count) x 0) start
          ∙ loop
          ∙ rw (append-nil (map expired gone))
              (ap (λ n. (kept ++ map expired gone, n)) (omega arith))),
      len,
      Sorted-split Newer kept gone (subst (Sorted Newer) parts (qsort_desc files lives)),
    )
