-- ===== src/Ramfs/Trait.antt =====
-- The methods of `FsServer` that `RamFs` has beside `write`, `remove` and `stat`, libs/planten_fs_ramfs/src/lib.rs.
use planten.Base.{◌⊎◌, inl, inr, Option-cases}
use planten.Base.{◌≡◌, ◌≢◌, refl, ◌∙◌, ap, Option, none, some, List, [], ◌∷◌, Str}
use planten.Fs.Inode.{Inode, contents, children}
use planten.Fs.Children.{keys}
use planten.Fs.FilePath.{components}
use planten.Ramfs.Tree.{RamFs, stat, stat_at, read_file, read_file_at, list_dir}
use planten.Ramfs.Lookup.{read_file_at-stat_at}
use planten.Ramfs.Files.{read_file-stat}
use planten.Ramfs.Listing.{list_dir-IsSorted, list_dir-none}
use mathlib.Core.List.{Perm}
use mathlib.Core.Option

unfoldable pub walk : Str → RamFs → Option (List Str)
walk path fs = list_dir path fs

unfoldable pub read : Str → RamFs → Option Str
read path fs = read_file path fs

unfoldable pub open_path : Str → RamFs → Option (Unit {0})
open_path path fs = Option.map (λ bs. tt) (read_file path fs)

unfoldable pub clunk : Str → RamFs → Option (Unit {0})
clunk path fs = some tt

unfoldable pub wstat : Str → Inode → RamFs → Option (Unit {0}) × RamFs
wstat path inode fs = (some tt, fs)

read_file-none : (path : Str) (fs : RamFs) → stat path fs ≡ none → read_file path fs ≡ none
unfolding read_file stat read_file_at
read_file-none path fs h = go (components path) h
  where
    go : (p : List Str) → stat_at p fs.root ≡ none → read_file_at p fs.root ≡ none
    go [] h = refl
    go (c ∷ p) h = read_file_at-stat_at c p fs.root ∙ ap (λ o. Option.map contents o) h

open_path-none :
    (path : Str) (fs : RamFs)
    → stat path fs ≡ none
    → (open_path path fs ≡ none) × (read path fs ≡ none) × (walk path fs ≡ none)
unfolding open_path read walk
open_path-none path fs e = (
  ap (λ o. Option.map (λ bs. tt) o) (read_file-none path fs e),
  read_file-none path fs e,
  list_dir-none path fs e,
)

open_path-read :
    (path : Str) (fs : RamFs) (m : Inode)
    → components path ≢ []
    → stat path fs ≡ some m
    → (names : List Str) × (open_path path fs ≡ some tt)
      × (read path fs ≡ some (contents m))
      × (walk path fs ≡ some names)
      × Perm names (keys (children m))
unfolding open_path read walk
open_path-read path fs m h e =
    let (names, listed, ordered, perm) = list_dir-IsSorted path fs m e in
    (
      names,
      ap (λ o. Option.map (λ bs. tt) o) (read_file-stat path fs m h e),
      read_file-stat path fs m h e,
      listed,
      perm,
    )

-- A path other than the root's leads nowhere, and can be neither opened nor read nor listed; or it leads to an
-- inode, can be opened, and its inode's contents is read and the inode's children are listed.
pub open_path-cases :
    (path : Str) (fs : RamFs)
    → components path ≢ []
    → ((stat path fs ≡ none)
        × (open_path path fs ≡ none)
        × (read path fs ≡ none)
        × (walk path fs ≡ none))
      ⊎ ((m : Inode) × (names : List Str) × (stat path fs ≡ some m)
          × (open_path path fs ≡ some tt)
          × (read path fs ≡ some (contents m))
          × (walk path fs ≡ some names)
          × Perm names (keys (children m)))
open_path-cases path fs h = elim (Option-cases (stat path fs)) [
  | inl e ↦
      let (opened, unread, unlisted) = open_path-none path fs e in inl (e, opened, unread, unlisted)
  | inr (m, e) ↦
      let (names, opened, contents_read, listed, perm) = open_path-read path fs m h e in
      inr (m, names, e, opened, contents_read, listed, perm)
]
