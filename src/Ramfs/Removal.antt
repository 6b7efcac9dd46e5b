-- ===== src/Ramfs/Removal.antt =====
-- `remove` and `wstat_from_stat` of libs/planten_fs_ramfs/src/lib.rs on whole file systems.
use planten.Base.{◌≡◌, ◌≢◌, refl, sym, ◌∙◌, false, none, some}
use planten.Base.{ok, List, [], ◌∷◌, ◌++◌, Str, str_eq, str_eq_self}
use planten.Fs.Inode.{Attrs, Inode, Children, node}
use planten.Fs.Children.{get, remove, get-remove}
use planten.Fs.FilePath.{components}
use planten.Ramfs.Tree.{RamFs, stat_at, stat, update_at, remove_child, remove_at, remove_path}
use planten.Ramfs.Lookup.{Diverges, last_of, stat_at-cons_none}
use planten.Ramfs.Update.{replace_at, update_at-found, stat_at-replace_at}
use planten.Ramfs.Parent.{split_last-cons, parent_of, stat_at-beside}
use mathlib.Core.Path.{subst}
use mathlib.Core.List.{append_assoc}

-- Another file system with this inode at the path `front`.
abbrev pub at_parent : List Str → Inode → RamFs → RamFs
at_parent front p fs = record { root = replace_at front p fs.root }

remove_child-found :
    (c : Str) (a : Attrs) (cs : Children) (m : Inode)
    → get c cs ≡ some m
    → remove_child c (node a cs) ≡ ok (some (node a (remove c cs)))
unfolding remove_child
remove_child-found c a cs m h = rw h

pub stat_at-remove :
    (c : Str) (q : List Str) (a : Attrs) (cs : Children)
    → stat_at (c ∷ q) (node a (remove c cs)) ≡ none
stat_at-remove c q a cs = stat_at-cons_none c q a _ (rw get-remove (rw str_eq_self))

stat_at-remove_ne :
    (c d : Str) (r : List Str) (a : Attrs) (cs : Children)
    → str_eq c d ≡ false
    → stat_at (d ∷ r) (node a (remove c cs)) ≡ stat_at (d ∷ r) (node a cs)
unfolding stat_at
stat_at-remove_ne c d r a cs h = rw (stat_at, get-remove, h)

-- What `remove` leaves of a tree: nothing at or behind the path, and the same beside it.
abbrev Removed : List Str → RamFs → RamFs → Type 0
Removed p fs fs' =
    ((q : List Str) → stat_at (p ++ q) fs'.root ≡ none)
    × ((q : List Str) → Diverges p q → stat_at q fs'.root ≡ stat_at q fs.root)

Removed-at :
    (front : List Str) (c : Str) (fs : RamFs) (m : Inode)
    → stat_at (front ++ (c ∷ [])) fs.root ≡ some m
    → (fs' : RamFs) × (update_at front (remove_child c) fs.root ≡ ok (some fs'.root))
      × Removed (front ++ (c ∷ [])) fs fs'
Removed-at front c fs m h =
    let (a, cs, e, g) = parent_of front c fs.root m h in
    (
      at_parent front (node a (remove c cs)) fs,
      rw
          (
            update_at-found front (remove_child c) fs.root (node a cs) e,
            remove_child-found c a cs m g,
          )
          refl,
      (
        λ q. rw append_assoc (
            stat_at-replace_at front (c ∷ q) (node a (remove c cs)) fs.root (node a cs) e
            ∙ stat_at-remove c q a cs),
        λ q d.
            stat_at-beside front c q fs.root (node a cs) (node a (remove c cs)) e
              (λ x r n. stat_at-remove_ne c x r a cs n) d,
      ),
    )

remove_at-found :
    (p : List Str) (fs : RamFs) (m : Inode)
    → p ≢ []
    → stat_at p fs.root ≡ some m
    → (fs' : RamFs) × (remove_at p fs ≡ ok (some tt, fs')) × Removed p fs fs'
unfolding remove_at
remove_at-found [] fs m h e = absurd (h refl)
remove_at-found (c ∷ p) fs m h e =
    let (front, s, a) = split_last-cons c p in
    let (fs', u, r) =
      Removed-at front (last_of c p) fs m (subst (λ l. stat_at l fs.root ≡ some m) a e) in
    (fs', rw (s, remove_at, u) refl, subst (λ l. Removed l fs fs') (sym a) r)

-- Removing a path that is there, and is not the root: afterwards nothing is found at the path or behind
-- it, and diverging paths find what they found.
pub remove_path-gone :
    (path : Str) (fs : RamFs) (m : Inode)
    → components path ≢ []
    → stat path fs ≡ some m
    → (fs' : RamFs) × (remove_path path fs ≡ ok (some tt, fs'))
      × ((q : List Str) → stat_at (components path ++ q) fs'.root ≡ none)
      × ((q : Str) → Diverges (components path) (components q) → stat q fs' ≡ stat q fs)
unfolding remove_path stat
remove_path-gone path fs m h e =
    let (fs', r, (gone, beside)) = remove_at-found (components path) fs m h e in
    (fs', r, gone, λ q. beside (components q))
