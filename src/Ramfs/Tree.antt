-- ===== src/Ramfs/Tree.antt =====
-- `RamFs` and its operations, libs/planten_fs_ramfs/src/lib.rs. A loop over the components of a path
-- is a recursion on them. `now d` is the time that the clock shows when the step at depth `d` of a
-- path reads it.
use planten.Base.{ℕ, suc, ◌^◌, ◌%◌, Bool}
use planten.Base.{Option, none, some, Res, ok, ◌>>=◌, if◌then◌else◌, is_some}
use planten.Base.{List, [], ◌∷◌, Str, bytes, length, bit_or}
use planten.Fs.Inode.{Attrs, Inode, Children, node, children, contents, dmdir, new}
use planten.Fs.Children.{get, insert, remove, keys}
use planten.Fs.FilePath.{components}
use planten.Ramfs.Bytes.{write_contents}
use planten.Ramfs.Sort.{sort}

pub record RamFs : Type 0 where
  pub root : Inode

abbrev pub new_file : ℕ → Str → Inode
new_file now component = new now component 0o644 (bytes "user") (bytes "group")

abbrev pub new_dir : ℕ → Str → Inode
new_dir now component = new now component (bit_or 0o755 dmdir) (bytes "user") (bytes "group")

-- `RamFs::new`
unfoldable pub new_ramfs : ℕ → RamFs
new_ramfs now = record { root = new_dir now (bytes "/") }

abbrev pub later : (ℕ → ℕ) → ℕ → ℕ
later now d = now (suc d)

abbrev pub or_else {ℓ} : {A : Type ℓ} → Option A → A → A
or_else none a = a
or_else (some b) a = b

-- `file.data = data.to_vec()`
abbrev pub with_contents : Str → Inode → Inode
with_contents bs (node a cs) = node (record a { contents = bs }) cs

unfoldable pub create_file_at : (ℕ → ℕ) → List Str → Str → Inode → Inode
create_file_at now [] bs n = n
create_file_at now (c ∷ []) bs (node a cs) =
    node a (insert c (with_contents bs (new_file (now 0) c)) cs)
create_file_at now (c ∷ d ∷ ds) bs (node a cs) =
    let child = or_else (get c cs) (new_dir (now 0) c) in
    node a (insert c (create_file_at (later now) (d ∷ ds) bs child) cs)

unfoldable pub create_file : (ℕ → ℕ) → Str → Str → RamFs → RamFs
create_file now path bs fs = record { root = create_file_at now (components path) bs fs.root }

unfoldable pub create_dir_at : (ℕ → ℕ) → List Str → Inode → Inode
create_dir_at now [] n = n
create_dir_at now (c ∷ ds) (node a cs) =
    let child = or_else (get c cs) (new_dir (now 0) c) in
    node a (insert c (create_dir_at (later now) ds child) cs)

unfoldable pub create_dir : (ℕ → ℕ) → Str → RamFs → RamFs
create_dir now path fs = record { root = create_dir_at now (components path) fs.root }

-- The loop `current = current.children.get(component)?` of `stat` and `list_dir`.
unfoldable pub stat_at : List Str → Inode → Option Inode
stat_at [] n = some n
stat_at (c ∷ ds) n = elim (get c (children n)) [ none ↦ none | some m ↦ stat_at ds m ]

unfoldable pub stat : Str → RamFs → Option Inode
stat path fs = stat_at (components path) fs.root

unfoldable pub read_file_at : List Str → Inode → Option Str
read_file_at [] n = none
read_file_at (c ∷ []) n = elim (get c (children n)) [ none ↦ none | some m ↦ some (contents m) ]
read_file_at (c ∷ d ∷ ds) n = elim (get c (children n)) [
  | none ↦ none
  | some m ↦ read_file_at (d ∷ ds) m
]

unfoldable pub read_file : Str → RamFs → Option Str
read_file path fs = read_file_at (components path) fs.root

unfoldable pub list_dir : Str → RamFs → Option (List Str)
list_dir path fs = elim (stat_at (components path) fs.root) [
  | none ↦ none
  | some n ↦ some (sort (keys (children n)))
]

-- A change below the inode that `current = current.children.get_mut(part)?` reaches. `ok none` is the
-- source's `None`, which leaves the tree as it is.
abbrev pub put_child : Attrs → Str → Children → Option Inode → Option Inode
put_child a c cs none = none
put_child a c cs (some m) = some (node a (insert c m cs))

unfoldable pub update_at : List Str → (Inode → Res (Option Inode)) → Inode → Res (Option Inode)
update_at [] f n = f n
update_at (c ∷ ds) f (node a cs) = elim (get c cs) [
  | none ↦ ok none
  | some m ↦ update_at ds f m >>= λ r. ok (put_child a c cs r)
]

-- `components.split_last()`
unfoldable pub split_last : List Str → Option (List Str × Str)
split_last [] = none
split_last (c ∷ []) = some ([], c)
split_last (c ∷ d ∷ ds) = elim (split_last (d ∷ ds)) [
  | none ↦ none
  | some (front, last) ↦ some (c ∷ front, last)
]

-- The result of an operation that returns an `Option`: its value, and the file system after it.
abbrev pub commit {ℓ} : {A : Type ℓ} → A → RamFs → Option Inode → Option A × RamFs
commit a fs none = (none, fs)
commit a fs (some r) = (some a, record { root = r })

unfoldable pub write_node : Bool → ℕ → ℕ → Str → Inode → Res (Option Inode)
write_node checks now offset bs (node a cs) = do
  file ← write_contents checks offset bs a.contents
  ok (some (node (record a { contents = file; mtime = now }) cs))

-- `components.split_last()?` is `None` at the root; the loop and `get_mut(filename)?` follow the path.
unfoldable pub write_at : Bool → ℕ → List Str → ℕ → Str → RamFs → Res (Option ℕ × RamFs)
write_at checks now [] offset bs fs = ok (none, fs)
write_at checks now (c ∷ p) offset bs fs = do
  r ← update_at (c ∷ p) (write_node checks now offset bs) fs.root
  ok (commit (length bs % 2 ^ 32) fs r)

unfoldable pub write : Bool → ℕ → Str → ℕ → Str → RamFs → Res (Option ℕ × RamFs)
write checks now path offset bs fs = write_at checks now (components path) offset bs fs

unfoldable pub remove_child : Str → Inode → Res (Option Inode)
remove_child c (node a cs) =
    if is_some (get c cs) then ok (some (node a (remove c cs))) else ok none

unfoldable pub remove_at : List Str → RamFs → Res (Option (Unit {0}) × RamFs)
remove_at p fs = elim (split_last p) [
  | none ↦ ok (none, fs)
  | some (front, last) ↦ do r ← update_at front (remove_child last) fs.root; ok (commit tt fs r)
]

unfoldable pub remove_path : Str → RamFs → Res (Option (Unit {0}) × RamFs)
remove_path path fs = remove_at (components path) fs
