-- ===== src/Sorting.antt =====
-- `qsort` of the C library as insertion by the comparison function. A sort that orders equal items
-- differently would differ only among these.
use mathlib.Core.List.{Permᴰ}
use mathlib.Core.List.Permᴰ
use spiketrace.Prelude.{
  ℕ, zero, suc, ◌≤◌, ◌≡◌, refl, ap, true, false, List, [], ◌∷◌, ◌++◌, arith, if◌then◌else◌, length,
  All, Bool-cases, inl, inr,
}
use spiketrace.Prelude.Int.{ℤ, pos, leb_ℤ}

module _ {A : Type 0} where
  unfoldable pub insert : (A → A → ℤ) → A → List A → List A
  insert cmp f [] = f ∷ []
  insert cmp f (g ∷ gs) = if leb_ℤ (cmp f g) (pos 0) then f ∷ g ∷ gs else g ∷ insert cmp f gs

  unfoldable pub qsort : (A → A → ℤ) → List A → List A
  qsort cmp [] = []
  qsort cmp (f ∷ fs) = insert cmp f (qsort cmp fs)

  -- every item stands in the relation to all behind it
  abbrev pub Sorted : (A → A → Type 0) → List A → Type 0
  Sorted R [] = Unit {0}
  Sorted R (f ∷ fs) = All (R f) fs × Sorted R fs

  All-insert :
      (P : A → Type 0) (cmp : A → A → ℤ) (f : A) (gs : List A)
      → P f
      → All P gs
      → All P (insert cmp f gs)
  unfolding insert
  All-insert P cmp f [] p ps = (p, tt)
  All-insert P cmp f (g ∷ gs) p (q, ps) = elim (Bool-cases (leb_ℤ (cmp f g) (pos 0))) [
    | inl here ↦ rw here (p, (q, ps))
    | inr there ↦ rw there (q, All-insert P cmp f gs p ps)
  ]

  pub All-qsort : (P : A → Type 0) (cmp : A → A → ℤ) (fs : List A) → All P fs → All P (qsort cmp fs)
  unfolding qsort
  All-qsort P cmp [] ps = tt
  All-qsort P cmp (f ∷ fs) (p, ps) = All-insert P cmp f (qsort cmp fs) p (All-qsort P cmp fs ps)

  length-insert :
      (cmp : A → A → ℤ) (f : A) (gs : List A) → length (insert cmp f gs) ≡ suc (length gs)
  unfolding insert
  length-insert cmp f [] = refl
  length-insert cmp f (g ∷ gs) = ground (arith, length-insert cmp f gs)

  pub length-qsort : (cmp : A → A → ℤ) (fs : List A) → length (qsort cmp fs) ≡ length fs
  unfolding qsort
  length-qsort cmp [] = refl
  length-qsort cmp (f ∷ fs) = omega (arith, length-insert cmp f (qsort cmp fs), length-qsort cmp fs)

  insert-Permᴰ : (cmp : A → A → ℤ) (f : A) (gs : List A) → Permᴰ (f ∷ gs) (insert cmp f gs)
  unfolding insert
  insert-Permᴰ cmp f [] = Permᴰ.refl (f ∷ [])
  insert-Permᴰ cmp f (g ∷ gs) = elim (Bool-cases (leb_ℤ (cmp f g) (pos 0))) [
    | inl here ↦ rw here (Permᴰ.refl (f ∷ g ∷ gs))
    | inr there ↦
        rw there (Permᴰ.trans (Permᴰ.swap refl refl) (Permᴰ.cons refl (insert-Permᴰ cmp f gs)))
  ]

  pub qsort-Permᴰ : (cmp : A → A → ℤ) (fs : List A) → Permᴰ fs (qsort cmp fs)
  unfolding qsort
  qsort-Permᴰ cmp [] = Permᴰ.nil
  qsort-Permᴰ cmp (f ∷ fs) =
      Permᴰ.trans (Permᴰ.cons refl (qsort-Permᴰ cmp fs)) (insert-Permᴰ cmp f (qsort cmp fs))

  All-map : (P Q : A → Type 0) (fs : List A) → ((f : A) → P f → Q f) → All P fs → All Q fs
  All-map P Q [] h ps = tt
  All-map P Q (f ∷ fs) h (p, ps) = (h f p, All-map P Q fs h ps)

  pub All-back : (P : A → Type 0) (xs ys : List A) → All P (xs ++ ys) → All P ys
  All-back P [] ys ps = ps
  All-back P (x ∷ xs) ys (p, ps) = All-back P xs ys ps

  -- what a file at the front has before it, the ones behind have too
  pub Sorted-split :
      (R : A → A → Type 0) (gone kept : List A)
      → Sorted R (gone ++ kept)
      → All (λ f. All (R f) kept) gone
  Sorted-split R [] kept s = tt
  Sorted-split R (f ∷ gone) kept (first, s) =
      (All-back (R f) gone kept first, Sorted-split R gone kept s)

  -- the first `n` of a list, and the rest
  pub split :
      (n : ℕ) (fs : List A)
      → n ≤ length fs
      → (front : List A) × (back : List A) × (fs ≡ front ++ back) × (length front ≡ n)
  split zero fs h = ([], fs, refl, refl)
  split (suc n) [] h = absurd (omega arith)
  split (suc n) (f ∷ fs) h =
      let (front, back, e, len) = split n fs (omega arith) in
      (f ∷ front, back, ap (◌∷◌ f) e, omega arith)

  pub All-front : (P : A → Type 0) (xs ys : List A) → All P (xs ++ ys) → All P xs
  All-front P [] ys ps = tt
  All-front P (x ∷ xs) ys (p, ps) = (p, All-front P xs ys ps)

-- a comparison function that orders live items by a transitive relation
module _ {A : Type 0} (IsLive : A → Type 0) (cmp : A → A → ℤ) (R : A → A → Type 0)
    (yes_lem : (f g : A) → IsLive f → IsLive g → leb_ℤ (cmp f g) (pos 0) ≡ true → R f g)
    (no_lem : (f g : A) → IsLive f → IsLive g → leb_ℤ (cmp f g) (pos 0) ≡ false → R g f)
    (trans : (f g h : A) → R f g → R g h → R f h) where
  Sorted-insert :
      (f : A) (gs : List A) → IsLive f → All IsLive gs → Sorted R gs → Sorted R (insert cmp f gs)
  unfolding insert
  Sorted-insert f [] live lives s = (tt, tt)
  Sorted-insert f (g ∷ gs) live (l, lives) (first, s) =
      elim (Bool-cases (leb_ℤ (cmp f g) (pos 0))) [
        | inl here ↦
            let r = yes_lem f g live l here in
            rw here ((r, All-map (R g) (R f) gs (λ h k. trans f g h r k) first), (first, s))
        | inr there ↦ rw there (
          All-insert (R g) cmp f gs (no_lem f g live l there) first,
          Sorted-insert f gs live lives s,
        )
      ]

  pub Sorted-qsort : (fs : List A) → All IsLive fs → Sorted R (qsort cmp fs)
  unfolding qsort
  Sorted-qsort [] lives = tt
  Sorted-qsort (f ∷ fs) (live, lives) =
      Sorted-insert f (qsort cmp fs) live (All-qsort IsLive cmp fs lives) (Sorted-qsort fs lives)
