-- ===== src/Ramfs/Listing.antt =====
-- `list_dir` of libs/planten_fs_ramfs/src/lib.rs.
use planten.Base.{◌≡◌, refl, some, none, List, Str}
use planten.Fs.Inode.{Inode, children}
use planten.Fs.Children.{keys}
use planten.Ramfs.Sort.{sort, IsSorted, sort-IsSorted, sort-perm}
use planten.Ramfs.Tree.{RamFs, stat, list_dir}
use mathlib.Core.List.{Perm}

-- The list of a path that leads to an inode: the names of its children in their byte order.
pub list_dir-IsSorted :
    (path : Str) (fs : RamFs) (m : Inode)
    → stat path fs ≡ some m
    → (names : List Str) × (list_dir path fs ≡ some names)
      × IsSorted names
      × Perm names (keys (children m))
unfolding stat list_dir
list_dir-IsSorted path fs m e = (
  sort (keys (children m)),
  rw (e, list_dir) refl,
  sort-IsSorted (keys (children m)),
  sort-perm (keys (children m)),
)

pub list_dir-none : (path : Str) (fs : RamFs) → stat path fs ≡ none → list_dir path fs ≡ none
unfolding stat list_dir
list_dir-none path fs e = rw (e, list_dir) refl
