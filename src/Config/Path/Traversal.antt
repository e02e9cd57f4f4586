-- ===== src/Config/Path/Traversal.antt =====
-- Which paths `is_safe_absolute_path` of src/config.c accepts.
use mathlib.Core.List.{append_assoc}
use spiketrace.Prelude.{
  ◌≡◌, refl, sym, ap, ◌∙◌, ◌⊎◌, inl, inr, true, false, ◌||◌, [], ◌∷◌, ◌++◌, ◌==◌, arith, Bytes,
  codes, Bool-cases,
}
use spiketrace.Config.Path.{starts_with, contains, is_safe_absolute_path}

starts_with-split :
    (s needle : Bytes) → starts_with s needle ≡ true → (post : Bytes) × (s ≡ needle ++ post)
unfolding starts_with
starts_with-split s [] h = (s, refl)
starts_with-split [] (b ∷ needle) h = absurd (ground arith)
starts_with-split (a ∷ s) (b ∷ needle) h =
    let same : a ≡ b = ground arith in
    let (post, e) = starts_with-split s needle (ground arith) in
    (post, ap (λ x. x ∷ s) same ∙ ap (◌∷◌ b) e)

starts_with-append : (needle post : Bytes) → starts_with (needle ++ post) needle ≡ true
unfolding starts_with
starts_with-append [] post = refl
starts_with-append (b ∷ needle) post = ground (arith, starts_with-append needle post)

-- what `contains` finds is there
contains-split :
    (s needle : Bytes)
    → contains s needle ≡ true
    → (pre : Bytes) × (post : Bytes) × (s ≡ pre ++ (needle ++ post))
unfolding contains
contains-split [] needle h = let (post, e) = starts_with-split [] needle h in ([], post, e)
contains-split (a ∷ s) needle h = elim (Bool-cases (starts_with (a ∷ s) needle)) [
  | inl here ↦ let (post, e) = starts_with-split (a ∷ s) needle here in ([], post, e)
  | inr later ↦
      let (pre, post, e) = contains-split s needle (ground arith) in (a ∷ pre, post, ap (◌∷◌ a) e)
]

-- what is there, `contains` finds
contains-append : (pre needle post : Bytes) → contains (pre ++ (needle ++ post)) needle ≡ true
unfolding contains
contains-append [] [] [] = starts_with-append [] []
contains-append [] [] (c ∷ post) = ground (arith, starts_with-append [] (c ∷ post))
contains-append [] (b ∷ needle) post = ground (arith, starts_with-append (b ∷ needle) post)
contains-append (a ∷ pre) needle post = ground (arith, contains-append pre needle post)

-- the path goes up from a directory on the way
abbrev pub Traverses : Bytes → Type 0
Traverses path = (pre : Bytes) × (post : Bytes) × (path ≡ pre ++ (codes "../" ++ post))

abbrev pub IsAbsolute : Bytes → Type 0
IsAbsolute path = (rest : Bytes) × (path ≡ b'/' ∷ rest)

Traverses-contains : (path : Bytes) → Traverses path → contains path (codes "../") ≡ true
Traverses-contains path (pre, post, e) =
    ap (λ p. contains p (codes "../")) e ∙ contains-append pre (codes "../") post

contains-Traverses :
    (path : Bytes)
    → (contains path (codes "/../") || contains path (codes "../")) ≡ true
    → Traverses path
contains-Traverses path h = elim (Bool-cases (contains path (codes "../"))) [
  | inl found ↦ contains-split path (codes "../") found
  | inr missed ↦
      let (pre, post, e) = contains-split path (codes "/../") (ground arith) in
      (pre ++ b'/' ∷ [], post, e ∙ sym (append_assoc pre (b'/' ∷ []) (codes "../" ++ post)))
]

-- `is_safe_absolute_path` accepts exactly the paths that begin with `/` and have `../` nowhere: what
-- it accepts is such a path, and what it refuses is not absolute or has `../` in it.
pub is_safe_absolute_path-exact :
    (path : Bytes)
    → ((is_safe_absolute_path path ≡ true) × IsAbsolute path × ¬ Traverses path)
      ⊎ ((is_safe_absolute_path path ≡ false) × (¬ IsAbsolute path ⊎ Traverses path))
unfolding is_safe_absolute_path
is_safe_absolute_path-exact [] = inr (refl, inl (λ (rest, e). ground (arith, e)))
is_safe_absolute_path-exact (c ∷ path) =
    let up = contains (c ∷ path) (codes "/../") || contains (c ∷ path) (codes "../") in
    elim (Bool-cases (c == b'/')) [
      | inr relative ↦ inr (rw relative refl, inl (λ (rest, e). ground (arith, e)))
      | inl absolute ↦
          let slash : c ≡ b'/' = ground arith in
          elim (Bool-cases up) [
            | inl found ↦
                inr (rw absolute (rw found refl), inr (contains-Traverses (c ∷ path) found))
            | inr missed ↦ inl (
              rw absolute (rw missed refl),
              (path, ap (λ x. x ∷ path) slash),
              λ t. ground (arith, missed, Traverses-contains (c ∷ path) t),
            )
          ]
    ]
