-- ===== src/Directories/Made.antt =====
-- What spkt_mkdir_p leaves behind.
use spiketrace.Prelude.{◌≡◌, Bool, true, false, Option, some, [], ◌∷◌, ◌==◌, Bytes}
use spiketrace.Status.{Status}
use spiketrace.Directories.{System, IsSystem}

unfoldable pub ends_with_slash : Bytes → Bool
ends_with_slash [] = false
ends_with_slash (c ∷ []) = c == b'/'
ends_with_slash (c ∷ e ∷ cs) = ends_with_slash (e ∷ cs)

module _ {S : Type 0} (sys : System S) (laws : IsSystem sys) where
  abbrev pub IsDir : Bytes → S → Type 0
  IsDir path s = sys.stat path s ≡ some true

  -- what comes next takes no directory away
  abbrev Keeps : (S → Status × S) → Type 0
  Keeps next = (q : Bytes) (s : S) → IsDir q s → IsDir q (next s).1
