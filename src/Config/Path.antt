-- ===== src/Config/Path.antt =====
-- `is_safe_absolute_path` of src/config.c.
pub mod Traversal
use spiketrace.Prelude.{
  Bool, true, false, not, ◌&&◌, ◌||◌, [], ◌∷◌, ◌==◌, if◌then◌else◌, Bytes, codes,
}

-- `strncmp (s, prefix, strlen (prefix)) == 0`
unfoldable pub starts_with : Bytes → Bytes → Bool
starts_with s [] = true
starts_with [] (_ ∷ _) = false
starts_with (a ∷ s) (b ∷ prefix) = (a == b) && starts_with s prefix

-- `strstr (s, needle) != NULL`
unfoldable pub contains : Bytes → Bytes → Bool
contains [] needle = starts_with [] needle
contains (a ∷ s) needle = starts_with (a ∷ s) needle || contains s needle

unfoldable pub is_safe_absolute_path : Bytes → Bool
is_safe_absolute_path [] = false
is_safe_absolute_path (c ∷ path) =
    if not (c == b'/')
    then false
    else if contains (c ∷ path) (codes "/../") || contains (c ∷ path) (codes "../")
    then false
    else true
