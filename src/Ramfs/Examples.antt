-- ===== src/Ramfs/Examples.antt =====
-- The file system of libs/planten_fs_ramfs/src/lib.rs at small inputs: `/home/note`, a file of two bytes.
use planten.Base.{ℕ, ◌⊎◌, ◌+◌, ◌^◌, ◌-◌, ◌≡◌, ◌≢◌, refl, arith, false, none, some}
use planten.Base.{ok, List, [], ◌∷◌, ◌++◌, Str, bytes, str_eq, length, get_elem?, bit_or}
use planten.Wire.Types.{Stat}
use planten.Fs.Inode.{Attrs, Inode, node, empty, add, children, contents, name, attrs, dmdir}
use planten.Fs.Children.{get, keys}
use planten.Fs.FilePath.{components, split, non_empty}
use planten.Ramfs.Contents.{byte_after}
use planten.Ramfs.Sort.{sort, str_le, IsSorted}
use planten.Ramfs.Lookup.{Diverges}
use planten.Ramfs.Tree.{RamFs, stat, stat_at, create_file, create_dir, list_dir, write, remove_path}
use planten.Ramfs.Tree.{split_last, or_else}
use planten.Ramfs.Wstat.{wstat_from_stat, renames, wstat_length}
use planten.Ramfs.Files.{base_name, stat-create}
use planten.Ramfs.Trait.{open_path, read, walk, open_path-cases}
use planten.Ramfs.Files.{with_write, stat-write}
use planten.Ramfs.Listing.{list_dir-IsSorted}
use planten.Ramfs.Removal.{remove_path-gone}
use planten.Ramfs.Rename.{wstat_changed, wstat-renamed}
use mathlib.Core.List.{Perm}

abbrev file_attrs : Str → Str → Attrs
file_attrs filename file = record {
  name = filename;
  contents = file;
  mode = 0o644;
  uid = bytes "user";
  gid = bytes "group";
  atime = 7;
  mtime = 7;
}

abbrev pub note : Inode
note = node (file_attrs (bytes "note") (bytes "hi")) empty

abbrev list : Inode
list = node (file_attrs (bytes "list") []) empty

abbrev home : Inode
home =
    node (record (file_attrs (bytes "home") []) { mode = 0o755 + dmdir })
      (add (bytes "note") note (add (bytes "list") list empty))

abbrev pub small : RamFs
small = record {
  root =
      node (record (file_attrs (bytes "/") []) { mode = 0o755 + dmdir })
        (add (bytes "home") home empty);
}

abbrev pub note_path : Str
note_path = bytes "/home/note"

pub note_there : stat note_path small ≡ some note
unfolding stat stat_at components split non_empty get str_eq
note_there = refl

home_there : stat (bytes "/home") small ≡ some home
unfolding stat stat_at components split non_empty get str_eq
home_there = refl

pub note_below : components note_path ≢ []
unfolding components split non_empty
note_below h = cc

pub note_parts : components note_path ≡ bytes "home" ∷ bytes "note" ∷ []
unfolding components split non_empty
note_parts = refl

open_path-cases_example :
    ((stat note_path small ≡ none)
      × (open_path note_path small ≡ none)
      × (read note_path small ≡ none)
      × (walk note_path small ≡ none))
    ⊎ ((m : Inode) × (names : List Str) × (stat note_path small ≡ some m)
        × (open_path note_path small ≡ some tt)
        × (read note_path small ≡ some (contents m))
        × (walk note_path small ≡ some names)
        × Perm names (keys (children m)))
open_path-cases_example = open_path-cases note_path small note_below

stat-create_example :
    ((m : Inode) × (stat note_path (create_file (λ d. d) note_path (bytes "new") small) ≡ some m)
      × (contents m ≡ bytes "new")
      × (name m ≡ base_name (components note_path))
      × (children m ≡ empty)
      × ((attrs m).mode ≡ 0o644))
    × ((m : Inode) × (stat note_path (create_dir (λ d. d) note_path small)
          ≡ some (or_else (stat note_path small) m))
        × (name m ≡ base_name (components note_path))
        × (children m ≡ empty)
        × ((attrs m).mode ≡ bit_or 0o755 dmdir))
    × ((q : Str)
        → Diverges (components note_path) (components q)
        → (stat q (create_file (λ d. d) note_path (bytes "new") small) ≡ stat q small)
          × (stat q (create_dir (λ d. d) note_path small) ≡ stat q small))
stat-create_example = stat-create (λ d. d) note_path (bytes "new") small note_below

stat-write_example :
    (fs' : RamFs) × (file : Str) × (write false 9 note_path 1 (bytes "ello") small
      ≡ ok (some 4, fs'))
    × (stat note_path fs' ≡ some (with_write 9 file note))
    × (length file ≡ 5)
    × ((i : ℕ) → get_elem? file i ≡ byte_after 1 (bytes "ello") (bytes "hi") i)
    × ((q : Str) → Diverges (components note_path) (components q) → stat q fs' ≡ stat q small)
stat-write_example =
    stat-write false 9 note_path 1 (bytes "ello") small note note_below note_there (omega arith)

list_dir-IsSorted_example :
    (names : List Str) × (list_dir (bytes "/home") small ≡ some names)
    × IsSorted names
    × Perm names (keys (children home))
list_dir-IsSorted_example = list_dir-IsSorted (bytes "/home") small home home_there

home_list : list_dir (bytes "/home") small ≡ some (bytes "list" ∷ bytes "note" ∷ [])
unfolding list_dir stat_at components split non_empty get str_eq sort keys str_le
home_list = refl

remove_path-gone_example :
    (fs' : RamFs) × (remove_path note_path small ≡ ok (some tt, fs'))
    × ((q : List Str) → stat_at (components note_path ++ q) fs'.root ≡ none)
    × ((q : Str) → Diverges (components note_path) (components q) → stat q fs' ≡ stat q small)
remove_path-gone_example = remove_path-gone note_path small note note_below note_there

-- A change that renames, and leaves the mode, the length and the group.
abbrev to_name : Str → Stat
to_name newname = record {
  type_ = 0;
  dev = 0;
  qid = record { qtype = 0; version = 0; path = 0 };
  mode = 2 ^ 32 - 1;
  atime = 0;
  mtime = 30;
  length = 2 ^ 64 - 1;
  name = newname;
  uid = [];
  gid = [];
  muid = [];
}

note_split : split_last (components note_path) ≡ some (bytes "home" ∷ [], bytes "note")
unfolding split_last components split non_empty
note_split = refl

wstat-renamed_example :
    (fs' : RamFs) × (wstat_from_stat note_path (to_name (bytes "memo")) small ≡ ok (some tt, fs'))
    × ((q : List Str) → stat_at (components note_path ++ q) fs'.root ≡ none)
    × ((q : List Str)
        → stat_at (bytes "home" ∷ bytes "memo" ∷ q) fs'.root
          ≡ stat_at q (
              node
                (record (wstat_changed
                  (to_name (bytes "memo"))
                  (bytes "hi")
                  (file_attrs (bytes "note") (bytes "hi"))) { name = bytes "memo" })
                empty))
unfolding renames wstat_length stat_at get str_eq
wstat-renamed_example =
    wstat-renamed note_path (to_name (bytes "memo")) small (bytes "home" ∷ []) (bytes "note")
      (bytes "hi") (file_attrs (bytes "note") (bytes "hi")) empty note_split note_there refl refl
      refl
