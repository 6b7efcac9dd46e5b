-- ===== src/Ramfs/Wstat.antt =====
-- `wstat_from_stat` of libs/planten_fs_ramfs/src/lib.rs. A field of all ones, or an empty text, leaves
-- what it stands for unchanged.
use planten.Base.{ℕ, ◌^◌, ◌-◌, Bool, true, false, not, ◌&&◌, ◌==◌, Option, none, some}
use planten.Base.{Res, ok, ◌>>=◌, if◌then◌else◌, is_some, List, [], ◌∷◌, Str, str_eq}
use planten.Wire.Types.{Stat}
use planten.Fs.Inode.{Attrs, Inode, Children, node}
use planten.Fs.Children.{get, insert, remove}
use planten.Fs.FilePath.{components}
use planten.Ramfs.Bytes.{resize}
use planten.Ramfs.Tree.{RamFs, update_at, split_last, commit}

abbrev pub is_empty : Str → Bool
is_empty [] = true
is_empty (c ∷ s) = false

-- `!0u32`, `!0u64`
abbrev pub ones32 : ℕ
ones32 = 2 ^ 32 - 1

abbrev pub ones64 : ℕ
ones64 = 2 ^ 64 - 1

-- The mode, the time and the group, which the root and the other inodes take alike.
unfoldable pub wstat_attrs : Stat → Attrs → Attrs
wstat_attrs stat a = record a {
  mode = if stat.mode == ones32 then a.mode else stat.mode;
  mtime = if stat.mtime == ones32 then a.mtime else stat.mtime;
  gid = if is_empty stat.gid then a.gid else stat.gid;
}

unfoldable pub wstat_length : Stat → Str → Res Str
wstat_length stat file = if stat.length == ones64 then ok file else resize stat.length file

-- Is the inode to get another name?
unfoldable pub renames : Stat → Str → Bool
renames stat filename = not (is_empty stat.name) && not (str_eq stat.name filename)

-- The inode with its changes goes back under its name or under the new one.
unfoldable pub put_renamed : Stat → Str → Attrs → Children → Attrs → Children → Option Inode
put_renamed stat filename a cs b ds =
    if renames stat filename
    then (if is_some (get stat.name cs)
        then none
        else some (
            node a
              (insert stat.name (node (record b { name = stat.name }) ds) (remove filename cs))))
    else some (node a (insert filename (node b ds) cs))

unfoldable pub wstat_child : Stat → Str → Inode → Res (Option Inode)
wstat_child stat filename (node a cs) = elim (get filename cs) [
  | none ↦ ok none
  | some (node b ds) ↦ do
    file ← wstat_length stat b.contents
    ok (put_renamed stat filename a cs (wstat_attrs stat (record b { contents = file })) ds)
]

unfoldable pub wstat_root : Stat → Inode → Inode
wstat_root stat (node a cs) = node (wstat_attrs stat a) cs

unfoldable pub wstat_at : List Str → Stat → RamFs → Res (Option (Unit {0}) × RamFs)
wstat_at p stat fs = elim (split_last p) [
  | none ↦ ok (some tt, record { root = wstat_root stat fs.root })
  | some (front, last) ↦ do r ← update_at front (wstat_child stat last) fs.root; ok (commit tt fs r)
]

unfoldable pub wstat_from_stat : Str → Stat → RamFs → Res (Option (Unit {0}) × RamFs)
wstat_from_stat path stat fs = wstat_at (components path) stat fs
