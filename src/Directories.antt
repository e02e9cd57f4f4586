-- ===== src/Directories.antt =====
-- src/fs_utils.c: spkt_mkdir_p makes a directory and its parents. The system is an interface: what
-- `mkdir` answers and does, and whether `stat` finds a directory.
pub mod Made
mod Tests
use spiketrace.Prelude.{
  ℕ, ◌≡◌, Bool, true, false, Option, none, some, List, [], ◌∷◌, ◌++◌, leb, ◌==◌, if◌then◌else◌,
  length, Bytes,
}
use spiketrace.Status.{Status, ok, err_invalid_param, err_fs_create, err_fs_not_dir}

-- the outcome of `mkdir`: 0, EEXIST, or another error
pub data Mkdir : Type 0 where
  made exists refused : Mkdir

pub record System (S : Type 0) : Type 0 where
  pub mkdir : Bytes → S → Mkdir × S
  -- whether the path is a directory, or none if `stat` fails
  pub stat : Bytes → S → Option Bool

-- what the two calls promise: a made path is a directory, one that exists is found, and no call
-- takes a directory away
pub record IsSystem {S : Type 0} (sys : System S) : Type 0 where
  pub made_dir :
      (p : Bytes) (s s' : S) → sys.mkdir p s ≡ (Mkdir.made, s') → sys.stat p s' ≡ some true
  pub found :
      (p : Bytes) (s s' : S)
      → sys.mkdir p s ≡ (Mkdir.exists, s')
      → (b : Bool) × (sys.stat p s' ≡ some b)
  pub kept :
      (p q : Bytes) (s : S) → sys.stat q s ≡ some true → sys.stat q (sys.mkdir p s).1 ≡ some true

-- `PATH_MAX`
abbrev pub path_max : ℕ
path_max = 4096

module _ {S : Type 0} (sys : System S) where
  -- the check of a path that exists, and what follows
  abbrev pub if_dir : (S → Status × S) → S → Option Bool → Status × S
  if_dir next s none = next s
  if_dir next s (some true) = next s
  if_dir next s (some false) = (err_fs_not_dir, s)

  abbrev pub after_mkdir : Bytes → (S → Status × S) → Mkdir × S → Status × S
  after_mkdir path next (Mkdir.made, s) = next s
  after_mkdir path next (Mkdir.exists, s) = if_dir next s (sys.stat path s)
  after_mkdir path next (Mkdir.refused, s) = (err_fs_create, s)

  -- one directory
  unfoldable pub make : Bytes → (S → Status × S) → S → Status × S
  make path next s = after_mkdir path next (sys.mkdir path s)

  abbrev pub done : S → Status × S
  done s = (ok, s)

  -- the loop, with `path` before the pointer: up to the next slash, which ends a directory
  unfoldable pub make_parents : Bytes → Bytes → S → Status × S
  make_parents path [] = make path done
  make_parents path (c ∷ []) = if c == b'/' then make path done else make (path ++ c ∷ []) done
  make_parents path (c ∷ e ∷ cs) =
      let rest = make_parents (path ++ c ∷ []) (e ∷ cs) in
      if c == b'/' then make path rest else rest

  -- behind the leading slash, if there is one; a slash alone makes nothing
  abbrev pub from_root : ℕ → Bytes → S → Status × S
  from_root slash [] = done
  from_root slash (c ∷ cs) = make_parents (slash ∷ []) (c ∷ cs)

  abbrev pub mkdir_all : Bytes → S → Status × S
  mkdir_all [] s = (err_invalid_param, s)
  mkdir_all (c ∷ cs) s = if c == b'/' then from_root c cs s else make_parents [] (c ∷ cs) s

  unfoldable pub spkt_mkdir_p : Option Bytes → S → Status × S
  spkt_mkdir_p none s = (err_invalid_param, s)
  spkt_mkdir_p (some path) s =
      if leb path_max (length path) then (err_invalid_param, s) else mkdir_all path s
