-- ===== src/Anomaly/Cooldown/Drop.antt =====
-- The removal of an expired entry, as one pass over the table.
use spiketrace.Prelude.{
  ℕ, suc, ◌-◌, ◌≤◌, ◌≡◌, refl, inl, inr, ap, true, false, none, some, [], ◌∷◌, arith, ltb,
  if◌then◌else◌, length, get_or, take, Bool-cases,
}
use spiketrace.Prelude.Int.{ℤ, eqb_ℤ, eqb_ℤ_iff}
use spiketrace.Anomaly.Types.{CooldownEntry, Table}
use spiketrace.Anomaly.Cooldown.{no_entry, remove}
use spiketrace.Anomaly.Cooldown.Lookup.{lookup, IsDistinct, position}

-- the last entry, and the table without it
unfoldable pub last : CooldownEntry → Table → CooldownEntry
last e [] = e
last e (f ∷ es) = last f es

unfoldable pub init : CooldownEntry → Table → Table
init e [] = []
init e (f ∷ es) = e ∷ init f es

-- `remove` at the place of a key, as one pass over the table
unfoldable pub drop_key : ℤ → Table → Table
unfolding last init
drop_key key [] = []
drop_key key (e ∷ []) = []
drop_key key (e ∷ f ∷ es) =
    if eqb_ℤ e.scope_key key then last f es ∷ init f es else e ∷ drop_key key (f ∷ es)

get_or-last : (e : CooldownEntry) (es : Table) → get_or (e ∷ es) (length es) no_entry ≡ last e es
unfolding last
get_or-last e [] = refl
get_or-last e (f ∷ es) = get_or-last f es

take-init : (e : CooldownEntry) (es : Table) → take (length es) (e ∷ es) ≡ init e es
unfolding init
take-init e [] = refl
take-init e (f ∷ es) = ap (◌∷◌ e) (take-init f es)

less-one : (n : ℕ) → suc (suc n) - 1 ≡ suc n
less-one n = omega arith

two-items : (n : ℕ) → ltb 1 (suc (suc n)) ≡ true
two-items n = ground arith

remove-zero : (e f : CooldownEntry) (es : Table) → remove (e ∷ f ∷ es) 0 ≡ last f es ∷ init f es
unfolding remove
remove-zero e f es =
    rw (less-one (length es), two-items (length es), get_or-last f es, take-init f es)

remove-one : (e : CooldownEntry) (i : ℕ) → remove (e ∷ []) i ≡ []
unfolding remove
remove-one e i = refl

remove-suc :
    (e f : CooldownEntry) (es : Table) (i : ℕ) → remove (e ∷ f ∷ es) (suc i) ≡ e ∷ remove (f ∷ es) i
unfolding remove
remove-suc e f [] i = refl
remove-suc e f (g ∷ es) i = rw (
  less-one (suc (length es)),
  two-items (suc (length es)),
  less-one (length es),
  two-items (length es),
)

pub remove-drop_key :
    (key : ℤ) (t : Table) (ts : ℕ)
    → lookup key t ≡ some ts
    → remove t (position key t) ≡ drop_key key t
unfolding lookup position drop_key
remove-drop_key key [] ts h = ground arith
remove-drop_key key (e ∷ []) ts h = remove-one e (position key (e ∷ []))
remove-drop_key key (e ∷ f ∷ es) ts h = elim (Bool-cases (eqb_ℤ e.scope_key key)) [
  | inl same ↦ rw (same, remove-zero e f es)
  | inr other ↦
      rw (other, remove-suc e f es (position key (f ∷ es)))
        (ap (◌∷◌ e) (remove-drop_key key (f ∷ es) ts (rw other at h)))
]

lookup-init :
    (key : ℤ) (e : CooldownEntry) (es : Table)
    → lookup key (e ∷ es) ≡ none
    → lookup key (init e es) ≡ none
unfolding lookup init
lookup-init key e [] h = refl
lookup-init key e (f ∷ es) h = ground (arith, lookup-init key f es)

lookup-last :
    (key : ℤ) (e : CooldownEntry) (es : Table)
    → IsDistinct (e ∷ es)
    → lookup key (last e es ∷ init e es) ≡ lookup key (e ∷ es)
unfolding lookup last init
lookup-last key e [] h = refl
lookup-last key e (f ∷ es) (fresh, d) = ground (
  arith,
  lookup-last key f es d,
  lookup-last e.scope_key f es d,
  eqb_ℤ_iff e.scope_key key,
  eqb_ℤ_iff (last f es).scope_key key,
  eqb_ℤ_iff (last f es).scope_key e.scope_key,
)

-- moving the last entry to the front keeps the keys distinct
IsDistinct-last :
    (e : CooldownEntry) (es : Table) → IsDistinct (e ∷ es) → IsDistinct (last e es ∷ init e es)
unfolding lookup last init
IsDistinct-last e [] h = ground arith
IsDistinct-last e (f ∷ es) (fresh, d) =
    let (away, rest) = IsDistinct-last f es d in
    let other : eqb_ℤ e.scope_key (last f es).scope_key ≡ false = ground (
      arith,
      lookup-last e.scope_key f es d,
      eqb_ℤ_iff (last f es).scope_key e.scope_key,
      eqb_ℤ_iff e.scope_key (last f es).scope_key,
    ) in
    (rw other away, (lookup-init e.scope_key f es fresh, rest))

-- Taking a key out keeps the other keys' times.
pub lookup-drop_key :
    (key : ℤ) (t : Table) (j : ℤ) (ts : ℕ)
    → IsDistinct t
    → lookup key t ≡ some ts
    → lookup j (drop_key key t) ≡ (if eqb_ℤ key j then none else lookup j t)
unfolding lookup drop_key
lookup-drop_key key [] j ts d h = ground arith
lookup-drop_key key (e ∷ []) j ts d h =
    ground (arith, eqb_ℤ_iff e.scope_key key, eqb_ℤ_iff key j, eqb_ℤ_iff e.scope_key j)
lookup-drop_key key (e ∷ f ∷ es) j ts (fresh, d) h = elim (Bool-cases (eqb_ℤ e.scope_key key)) [
  | inl same ↦
      let here : e.scope_key ≡ key = (eqb_ℤ_iff e.scope_key key).0 same in
      rw same (ground (arith, lookup-last j f es d, eqb_ℤ_iff key j, eqb_ℤ_iff e.scope_key j))
  | inr other ↦ rw other (
      ground (
        arith,
        lookup-drop_key key (f ∷ es) j ts d (rw other at h),
        eqb_ℤ_iff e.scope_key key,
        eqb_ℤ_iff key j,
        eqb_ℤ_iff e.scope_key j,
      ))
]

pub IsDistinct-drop_key :
    (key : ℤ) (t : Table) (ts : ℕ)
    → IsDistinct t
    → lookup key t ≡ some ts
    → IsDistinct (drop_key key t)
unfolding lookup drop_key
IsDistinct-drop_key key [] ts d h = ground arith
IsDistinct-drop_key key (e ∷ []) ts d h = tt
IsDistinct-drop_key key (e ∷ f ∷ es) ts (fresh, d) h = elim (Bool-cases (eqb_ℤ e.scope_key key)) [
  | inl same ↦ rw same (IsDistinct-last f es d)
  | inr other ↦
      let h' : lookup key (f ∷ es) ≡ some ts = rw other at h in
      rw other (
        ground (arith, lookup-drop_key key (f ∷ es) e.scope_key ts d h', fresh),
        IsDistinct-drop_key key (f ∷ es) ts d h',
      )
]

length-init : (e : CooldownEntry) (es : Table) → length (init e es) ≡ length es
unfolding init
length-init e [] = refl
length-init e (f ∷ es) = ap suc (length-init f es)

pub length-drop_key : (key : ℤ) (t : Table) → length (drop_key key t) ≤ length t
unfolding drop_key
length-drop_key key [] = omega arith
length-drop_key key (e ∷ []) = omega arith
length-drop_key key (e ∷ f ∷ es) = ground (arith, length-init f es, length-drop_key key (f ∷ es))
