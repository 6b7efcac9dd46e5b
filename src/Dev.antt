-- ===== src/Dev.antt =====
-- `DevFs` of libs/planten_fs_dev/src/lib.rs, and its server. The bytes of `random` are a parameter, as is
-- the clock, which `stat` reads twice.
use planten.Base.{ℕ, zero, suc, ◌%◌, ◌^◌, max, Bool, Option, none, some, if◌then◌else◌, bit_or}
use planten.Base.{List, [], ◌∷◌, ◌++◌, Str, bytes, str_eq, length, replicate, contains, join}
use planten.Fs.Inode.{Inode, node, new, dmdir}
use planten.Fs.FilePath.{components}
use planten.Served.View.{FsView}
use planten.Served.Loop.{Session}
use planten.Served.Plain.{PlainFids, plain_client}
pub mod Devices
mod Examples

abbrev pub dev_entries : List Str
dev_entries = bytes "console" ∷ bytes "null" ∷ bytes "zero" ∷ bytes "random" ∷ []

pub data DevFile : Type 0 where
  console null_file zero_file random_file : DevFile

-- `DevFile::from_name`
unfoldable pub from_name : Str → Option DevFile
from_name name =
    if str_eq name (bytes "console")
    then some console
    else if str_eq name (bytes "null")
    then some null_file
    else if str_eq name (bytes "zero")
    then some zero_file
    else if str_eq name (bytes "random")
    then some random_file
    else none

-- The first `n` of the random bytes.
unfoldable pub random_bytes : (ℕ → ℕ) → ℕ → Str
random_bytes random zero = []
random_bytes random (suc n) = random_bytes random n ++ (random n ∷ [])

unfoldable pub read_device : (ℕ → ℕ) → DevFile → ℕ → Str
read_device random console len = bytes "console"
read_device random null_file len = []
read_device random zero_file len = replicate (max len 1) 0
read_device random random_file len = random_bytes random (max len 1)

unfoldable pub write_device : DevFile → ℕ → ℕ
write_device console len = len
write_device null_file len = len
write_device zero_file len = len
write_device random_file len = len

-- The pattern of every method: the root, one of the entries, or anything else.
unfoldable pub walk_dev : List Str → Option (List Str)
walk_dev [] = some dev_entries
walk_dev (name ∷ []) = if contains dev_entries name then some [] else none
walk_dev (a ∷ b ∷ names) = none

unfoldable pub open_dev : List Str → Option (Unit {0})
open_dev [] = some tt
open_dev (name ∷ []) = if contains dev_entries name then some tt else none
open_dev (a ∷ b ∷ names) = none

unfoldable pub read_dev : (ℕ → ℕ) → List Str → Option Str
read_dev random [] = some (join (bytes "\n") dev_entries)
read_dev random (name ∷ []) =
    if contains dev_entries name
    then (elim (from_name name) [ none ↦ none | some file ↦ some (read_device random file 64) ])
    else none
read_dev random (a ∷ b ∷ names) = none

unfoldable pub write_dev : List Str → Str → Option ℕ
write_dev [] bs = none
write_dev (name ∷ []) bs =
    if contains dev_entries name
    then (elim (from_name name) [
      | none ↦ none
      | some file ↦ some (write_device file (length bs) % 2 ^ 32)
    ])
    else none
write_dev (a ∷ b ∷ names) bs = none

-- `Inode::new` with its times set: `inode.atime = now(); inode.mtime = now();`
unfoldable pub timed : (ℕ → ℕ) → Inode → Inode
timed now (node a cs) = node (record a { atime = now 0; mtime = now 1 }) cs

unfoldable pub stat_dev : (ℕ → ℕ) → List Str → Option Inode
stat_dev now [] =
    some (timed now (new (now 0) (bytes "dev") (bit_or 0o555 dmdir) (bytes "root") (bytes "root")))
stat_dev now (name ∷ []) =
    if contains dev_entries name
    then some (timed now (new (now 0) name 0o666 (bytes "root") (bytes "root")))
    else none
stat_dev now (a ∷ b ∷ names) = none

-- The methods on paths; `clunk` succeeds, `remove` and `wstat` fail.
unfoldable pub dev_view : (ℕ → ℕ) → (ℕ → ℕ) → FsView
dev_view now random = record {
  stat = λ path. stat_dev now (components path);
  read = λ path. read_dev random (components path);
}

-- `handle_client` of libs/planten_fs_dev/src/server.rs, on the clock and the random bytes of each message.
unfoldable pub dev_client : (ℕ → ℕ → ℕ) → (ℕ → ℕ → ℕ) → Bool → Str → Session PlainFids
dev_client now random checks input =
    plain_client (bytes "dev") (λ n. dev_view (now n) (random n)) checks input
