-- ===== src/Directories/Tests.antt =====
-- A system that keeps its directories in a list, runs on it, and the theorem at a concrete input.
use spiketrace.Prelude.{
  ◌≡◌, refl, Bool, true, false, ◌||◌, Option, none, some, List, [], ◌∷◌, if◌then◌else◌, Bytes,
  codes, str_eq,
}
use spiketrace.Status.{err_fs_create}
use spiketrace.Directories.{Mkdir, System, make, make_parents, spkt_mkdir_p}

abbrev has : Bytes → List Bytes → Bool
has p [] = false
has p (q ∷ dirs) = str_eq p q || has p dirs

-- everything can be made, but nothing below /proc
abbrev mkdir_in : Bytes → List Bytes → Mkdir × List Bytes
mkdir_in p dirs =
    if has p dirs
    then (Mkdir.exists, dirs)
    else if str_eq p (codes "/proc/x")
    then (Mkdir.refused, dirs)
    else (Mkdir.made, p ∷ dirs)

abbrev stat_in : Bytes → List Bytes → Option Bool
stat_in p dirs = if has p dirs then some true else none

abbrev listed : System (List Bytes)
listed = record { mkdir = mkdir_in; stat = stat_in }

abbrev after : List Bytes
after = codes "/var/lib/spiketrace" ∷ codes "/var/lib" ∷ codes "/var" ∷ []

refused_run :
    spkt_mkdir_p listed (some (codes "/proc/x/y")) (codes "/proc" ∷ [])
    ≡ (err_fs_create, codes "/proc" ∷ [])
unfolding spkt_mkdir_p make_parents make
refused_run = refl
