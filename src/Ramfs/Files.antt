-- ===== src/Ramfs/Files.antt =====
-- `create_file`, `create_dir`, `read_file`, `write` and `stat` of libs/planten_fs_ramfs/src/lib.rs on
-- whole file systems and textual paths.
use planten.Base.{ℕ, max, ◌+◌, ◌%◌, ◌^◌, ◌<◌, ◌≡◌, ◌≢◌, refl, ap, ◌∙◌, Bool, some}
use planten.Base.{ok, List, [], ◌∷◌, Str, length, get_elem?, bit_or}
use planten.Fs.Inode.{Inode, node, empty, attrs, children, contents, name, dmdir, new}
use planten.Fs.FilePath.{components}
use planten.Ramfs.Tree.{RamFs, or_else, stat_at, stat, read_file_at}
use planten.Ramfs.Tree.{read_file, create_file, create_dir, write, write_at}
use planten.Ramfs.Tree.{write_node, create_file_at, create_dir_at}
use planten.Ramfs.Lookup.{Diverges, stat_at-create_file_at, stat_at-create_file_at_ne}
use planten.Ramfs.Lookup.{
  stat_at-create_dir_at, stat_at-create_dir_at_ne, read_file_at-stat_at, last_of,
}
use planten.Ramfs.Update.{replace_at, update_at-found, stat_at-replace_at_self}
use planten.Ramfs.Update.{stat_at-replace_at_ne}
use planten.Ramfs.Contents.{byte_after, write_contents-byte_after}
use mathlib.Core.Option

-- A file read through a path is the contents of what the path finds; the root has no contents.
pub read_file-stat :
    (path : Str) (fs : RamFs) (m : Inode)
    → components path ≢ []
    → stat path fs ≡ some m
    → read_file path fs ≡ some (contents m)
unfolding read_file stat
read_file-stat path fs m h e = go (components path) h e
  where
    go :
        (p : List Str)
        → p ≢ []
        → stat_at p fs.root ≡ some m
        → read_file_at p fs.root ≡ some (contents m)
    go [] h e = absurd (h refl)
    go (c ∷ p) h e = read_file_at-stat_at c p fs.root ∙ ap (λ o. Option.map contents o) e

-- The name of the inode that a path leads to: its last component.
abbrev pub base_name : List Str → Str
base_name [] = []
base_name (c ∷ p) = last_of c p

stat-create_file :
    (now : ℕ → ℕ) (path bs : Str) (fs : RamFs)
    → components path ≢ []
    → (m : Inode) × (stat path (create_file now path bs fs) ≡ some m)
      × (contents m ≡ bs)
      × (name m ≡ base_name (components path))
      × (children m ≡ empty)
      × ((attrs m).mode ≡ 0o644)
unfolding stat create_file new
stat-create_file now path bs fs h = go (components path) h
  where
    go :
        (p : List Str)
        → p ≢ []
        → (m : Inode) × (stat_at p (create_file_at now p bs fs.root) ≡ some m)
          × (contents m ≡ bs)
          × (name m ≡ base_name p)
          × (children m ≡ empty)
          × ((attrs m).mode ≡ 0o644)
    go [] h = absurd (h refl)
    go (c ∷ p) h = (_, stat_at-create_file_at bs now c p fs.root, refl, refl, refl, refl)

stat-create_dir :
    (now : ℕ → ℕ) (path : Str) (fs : RamFs)
    → components path ≢ []
    → (m : Inode) × (stat path (create_dir now path fs) ≡ some (or_else (stat path fs) m))
      × (name m ≡ base_name (components path))
      × (children m ≡ empty)
      × ((attrs m).mode ≡ bit_or 0o755 dmdir)
unfolding stat create_dir new
stat-create_dir now path fs h = go (components path) h
  where
    go :
        (p : List Str)
        → p ≢ []
        → (m : Inode) × (stat_at p (create_dir_at now p fs.root)
            ≡ some (or_else (stat_at p fs.root) m))
          × (name m ≡ base_name p)
          × (children m ≡ empty)
          × ((attrs m).mode ≡ bit_or 0o755 dmdir)
    go [] h = absurd (h refl)
    go (c ∷ p) h = (_, stat_at-create_dir_at now c p fs.root, refl, refl, refl)

stat-create_file_ne :
    (now : ℕ → ℕ) (path q bs : Str) (fs : RamFs)
    → Diverges (components path) (components q)
    → (stat q (create_file now path bs fs) ≡ stat q fs)
      × (stat q (create_dir now path fs) ≡ stat q fs)
unfolding stat create_file create_dir
stat-create_file_ne now path q bs fs h = (
  stat_at-create_file_at_ne bs now (components path) (components q) fs.root h,
  stat_at-create_dir_at_ne now (components path) (components q) fs.root h,
)

-- At a path that is not the root, `create_file` makes a new file of that contents, of mode 0o644 and
-- without children, whatever stood there before, and `create_dir` keeps what stands there and otherwise
-- makes an empty directory of mode 0o755 there; either is named by the last component, and what diverging paths find is unchanged.
pub stat-create :
    (now : ℕ → ℕ) (path bs : Str) (fs : RamFs)
    → components path ≢ []
    → ((m : Inode) × (stat path (create_file now path bs fs) ≡ some m)
        × (contents m ≡ bs)
        × (name m ≡ base_name (components path))
        × (children m ≡ empty)
        × ((attrs m).mode ≡ 0o644))
      × ((m : Inode) × (stat path (create_dir now path fs) ≡ some (or_else (stat path fs) m))
          × (name m ≡ base_name (components path))
          × (children m ≡ empty)
          × ((attrs m).mode ≡ bit_or 0o755 dmdir))
      × ((q : Str)
          → Diverges (components path) (components q)
          → (stat q (create_file now path bs fs) ≡ stat q fs)
            × (stat q (create_dir now path fs) ≡ stat q fs))
stat-create now path bs fs h = (
  stat-create_file now path bs fs h,
  stat-create_dir now path fs h,
  λ q d. stat-create_file_ne now path q bs fs d,
)

-- The file system with another inode at a path.
abbrev rewritten : List Str → Inode → RamFs → RamFs
rewritten p m fs = record { root = replace_at p m fs.root }

write_at-found :
    (checks : Bool) (now : ℕ) (p : List Str) (offset : ℕ) (bs : Str) (fs : RamFs) (m m' : Inode)
    → p ≢ []
    → stat_at p fs.root ≡ some m
    → write_node checks now offset bs m ≡ ok (some m')
    → write_at checks now p offset bs fs ≡ ok (some (length bs % 2 ^ 32), rewritten p m' fs)
unfolding write_at
write_at-found checks now [] offset bs fs m m' h e w = absurd (h refl)
write_at-found checks now (c ∷ p) offset bs fs m m' h e w =
    rw (update_at-found (c ∷ p) (write_node checks now offset bs) fs.root m e, w) refl

-- What a write changes of an inode: its contents and its time of modification.
abbrev pub with_write : ℕ → Str → Inode → Inode
with_write now file (node a cs) = node (record a { contents = file; mtime = now }) cs

-- A write to an inode that is there and is not the root, ending below 2 ^ 63: the count is that of the
-- bytes modulo 2 ^ 32; the inode has a new contents and a new time, and nothing else of it changes; the contents has
-- the new bytes in their place, the old ones elsewhere and zeros in the gap, and ends where the
-- longer of the two ends; what diverging paths find is unchanged.
pub stat-write :
    (checks : Bool) (now : ℕ) (path : Str) (offset : ℕ) (bs : Str) (fs : RamFs) (m : Inode)
    → components path ≢ []
    → stat path fs ≡ some m
    → offset + length bs < 2 ^ 63
    → (fs' : RamFs) × (file : Str) × (write checks now path offset bs fs
        ≡ ok (some (length bs % 2 ^ 32), fs'))
      × (stat path fs' ≡ some (with_write now file m))
      × (length file ≡ max (length (contents m)) (offset + length bs))
      × ((i : ℕ) → get_elem? file i ≡ byte_after offset bs (contents m) i)
      × ((q : Str) → Diverges (components path) (components q) → stat q fs' ≡ stat q fs)
unfolding write stat write_node
stat-write checks now path offset bs fs (node a cs) h e fits =
    let p = components path in
    let (file, w, len, at) = write_contents-byte_after checks offset bs a.contents fits in
    let m' = node (record a { contents = file; mtime = now }) cs in
    let fs' = rewritten p m' fs in
    let found : stat_at p fs'.root ≡ some m' = stat_at-replace_at_self p m' fs.root (node a cs) e in
    (
      fs',
      file,
      write_at-found checks now p offset bs fs (node a cs) m' h e (rw w refl),
      found,
      len,
      at,
      λ q d. stat_at-replace_at_ne p (components q) m' fs.root d,
    )

-- At any path, the root's included, something stands after `create_file` or `create_dir`.
pub stat-create_some :
    (now : ℕ → ℕ) (path bs : Str) (fs : RamFs)
    → ((m : Inode) × (stat path (create_file now path bs fs) ≡ some m))
      × ((m : Inode) × (stat path (create_dir now path fs) ≡ some m))
unfolding stat create_file create_dir stat_at
stat-create_some now path bs fs = (file (components path), dir (components path))
  where
    file : (p : List Str) → (m : Inode) × (stat_at p (create_file_at now p bs fs.root) ≡ some m)
    file [] = (_, refl)
    file (c ∷ p) = (_, stat_at-create_file_at bs now c p fs.root)

    dir : (p : List Str) → (m : Inode) × (stat_at p (create_dir_at now p fs.root) ≡ some m)
    dir [] = (_, refl)
    dir (c ∷ p) = (_, stat_at-create_dir_at now c p fs.root)
