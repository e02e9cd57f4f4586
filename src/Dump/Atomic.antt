-- ===== src/Dump/Atomic.antt =====
-- `write_atomic` of src/spike_dump.c. What the system answers is an argument, and the result names
-- the calls that changed a file, in their order. The modes and the group of the file are left out;
-- setting them may fail without an effect on the rest.
pub mod Loop
pub mod Whole
pub mod Returns
use spiketrace.Prelude.{
  ℕ, suc, ◌+◌, Bool, true, false, not, Option, none, some, List, [], ◌∷◌, ◌++◌, leb, if◌then◌else◌,
  length, take, drop, Bytes, str_eq,
}
use spiketrace.Status.{
  Status, ok, is_ok, err_invalid_param, err_dump_open_failed, err_dump_write_failed,
  err_dump_rename_failed,
}

-- the files of the system by their paths
abbrev pub Files : Type 0
Files = Bytes → Option Bytes

pub data Change : Type 0 where
  created : Bytes → Change
  appended : Bytes → Bytes → Change
  unlinked : Bytes → Change
  renamed : Bytes → Bytes → Change

abbrev pub update : Files → Bytes → Option Bytes → Files
update files path content p = if str_eq p path then content else files p

abbrev pub contents : Option Bytes → Bytes
contents none = []
contents (some s) = s

unfoldable pub change : Change → Files → Files
change (Change.created path) files = update files path (some [])
change (Change.appended path s) files = update files path (some (contents (files path) ++ s))
change (Change.unlinked path) files = update files path none
change (Change.renamed from to) files = update (update files to (files from)) from none

unfoldable pub run : List Change → Files → Files
run [] files = files
run (c ∷ cs) files = run cs (change c files)

-- what `write` returns: how much it took, which is no more than it was given, EINTR, or an error
pub data Write : Type 0 where
  wrote : ℕ → Write
  interrupted failed : Write

pub record Answers : Type 0 where
  -- the name of the new file, if `mkstemp` makes one
  pub temp_path : Option Bytes
  pub writes : List Write
  pub synced : Bool
  pub closed : Bool
  pub moved : Bool

abbrev pub behind : Change → Option (Bool × List Change) → Option (Bool × List Change)
behind c none = none
behind c (some (fine, cs)) = some (fine, c ∷ cs)

-- the loop, and whether it wrote everything; `none` if it is still at it after these answers
unfoldable pub write_loop : Bytes → List Write → Bytes → Option (Bool × List Change)
write_loop temp answers [] = some (true, [])
write_loop temp [] (c ∷ cs) = none
write_loop temp (Write.failed ∷ answers) (c ∷ cs) = some (false, [])
write_loop temp (Write.interrupted ∷ answers) (c ∷ cs) = write_loop temp answers (c ∷ cs)
write_loop temp (Write.wrote n ∷ answers) (c ∷ cs) =
    behind (Change.appended temp (take n (c ∷ cs))) (write_loop temp answers (drop n (c ∷ cs)))

abbrev pub outcome : Answers → Bool → Status
outcome answers fine =
    if not fine
    then err_dump_write_failed
    else if not answers.synced
    then err_dump_write_failed
    else if not answers.closed
    then err_dump_write_failed
    else if not answers.moved
    then err_dump_rename_failed
    else ok

-- `rename`, or the removal at the label `cleanup`
abbrev pub last_change : Status → Bytes → Bytes → Change
last_change s temp final_path =
    if is_ok s then Change.renamed temp final_path else Change.unlinked temp

abbrev pub conclude :
    Bytes → Answers → Bytes → Option (Bool × List Change) → Option (Status × List Change)
conclude final_path answers temp none = none
conclude final_path answers temp (some (fine, cs)) =
    let s = outcome answers fine in
    some (s, Change.created temp ∷ (cs ++ last_change s temp final_path ∷ []))

-- with the file that `mkstemp` makes
abbrev pub write_to : Bytes → Bytes → Answers → Option Bytes → Option (Status × List Change)
write_to final_path content answers none = some (err_dump_open_failed, [])
write_to final_path content answers (some temp) =
    conclude final_path answers temp (write_loop temp answers.writes content)

-- the buffer of the temporary path has 272 bytes
unfoldable pub write_atomic : Bytes → Bytes → Answers → Option (Status × List Change)
write_atomic final_path content answers =
    if leb 272 (length final_path + 7)
    then some (err_invalid_param, [])
    else write_to final_path content answers answers.temp_path
