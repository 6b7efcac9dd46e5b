-- ===== src/Ramfs/Shape.antt =====
-- The shape of a tree under the operations of libs/planten_fs_ramfs/src/lib.rs.
use planten.Base.{ℕ, ◌≡◌, refl, ◌∙◌, Bool-cases, Option-cases, inl, inr, Bool, Option, none, some}
use planten.Base.{Res, ok, bind-eq-ok, ok-injective, List, [], ◌∷◌, Str, is_some}
use planten.Wire.Types.{Stat}
use planten.Fs.Inode.{Attrs, Inode, Children, node, name, new}
use planten.Fs.Children.{get, insert, remove}
use planten.Ramfs.Bytes.{write_contents}
use planten.Ramfs.Tree.{or_else, new_dir, new_file, with_contents, create_file_at, create_dir_at}
use planten.Ramfs.Tree.{update_at, put_child, later, write_node, remove_child}
use planten.Ramfs.Wstat.{wstat_attrs, wstat_length, renames, put_renamed, wstat_child}
use planten.Ramfs.WellFormed.{IsWellFormed, AllWellFormed, AllWellFormed-get, AllWellFormed-insert}
use planten.Ramfs.WellFormed.{AllWellFormed-remove}
use mathlib.Core.Path.{subst}
use mathlib.Core.Option.{some-injective}

-- The child at a name, or a new directory of that name.
child-IsWellFormed :
    (t : ℕ) (c : Str) (cs : Children)
    → AllWellFormed cs
    → (name (or_else (get c cs) (new_dir t c)) ≡ c)
      × IsWellFormed (or_else (get c cs) (new_dir t c))
unfolding new IsWellFormed
child-IsWellFormed t c cs h = elim (Option-cases (get c cs)) [
  | inl e ↦ rw e (refl, tt)
  | inr (k, e) ↦ rw e (AllWellFormed-get c cs k h e)
]

name-create_file_at :
    (now : ℕ → ℕ) (p : List Str) (bs : Str) (n : Inode) → name (create_file_at now p bs n) ≡ name n
unfolding create_file_at
name-create_file_at now [] bs n = refl
name-create_file_at now (c ∷ []) bs (node a cs) = refl
name-create_file_at now (c ∷ d ∷ ds) bs (node a cs) = refl

pub create_file_at-IsWellFormed :
    (now : ℕ → ℕ) (p : List Str) (bs : Str) (n : Inode)
    → IsWellFormed n
    → IsWellFormed (create_file_at now p bs n)
unfolding create_file_at new IsWellFormed
create_file_at-IsWellFormed now [] bs n h = h
create_file_at-IsWellFormed now (c ∷ []) bs (node a cs) h =
    AllWellFormed-insert c (with_contents bs (new_file (now 0) c)) cs refl tt h
create_file_at-IsWellFormed now (c ∷ d ∷ ds) bs (node a cs) h =
    let (named, wf) = child-IsWellFormed (now 0) c cs h in
    AllWellFormed-insert c _ cs
      (name-create_file_at (later now) (d ∷ ds) bs (or_else (get c cs) (new_dir (now 0) c)) ∙ named)
      (create_file_at-IsWellFormed (later now) (d ∷ ds) bs (or_else (get c cs) (new_dir (now 0) c))
        wf)
      h

name-create_dir_at :
    (now : ℕ → ℕ) (p : List Str) (n : Inode) → name (create_dir_at now p n) ≡ name n
unfolding create_dir_at
name-create_dir_at now [] n = refl
name-create_dir_at now (c ∷ ds) (node a cs) = refl

pub create_dir_at-IsWellFormed :
    (now : ℕ → ℕ) (p : List Str) (n : Inode) → IsWellFormed n → IsWellFormed (create_dir_at now p n)
unfolding create_dir_at IsWellFormed
create_dir_at-IsWellFormed now [] n h = h
create_dir_at-IsWellFormed now (c ∷ ds) (node a cs) h =
    let (named, wf) = child-IsWellFormed (now 0) c cs h in
    AllWellFormed-insert c _ cs
      (name-create_dir_at (later now) ds (or_else (get c cs) (new_dir (now 0) c)) ∙ named)
      (create_dir_at-IsWellFormed (later now) ds (or_else (get c cs) (new_dir (now 0) c)) wf) h

some-none : (m : Inode) → none ≡ some m → ⊥
some-none m h = cc

-- A change of an inode that keeps its name and the shape below it.
pub Keeps : (Inode → Res (Option Inode)) → Type 0
Keeps f = (n m : Inode) → IsWellFormed n → f n ≡ ok (some m) → (name m ≡ name n) × IsWellFormed m

pub update_at-IsWellFormed :
    (p : List Str) (f : Inode → Res (Option Inode)) (n m : Inode)
    → Keeps f
    → IsWellFormed n
    → update_at p f n ≡ ok (some m)
    → (name m ≡ name n) × IsWellFormed m
unfolding update_at IsWellFormed Keeps
update_at-IsWellFormed [] f n m k h e = k n m h e
update_at-IsWellFormed (c ∷ ds) f (node a cs) m k h e = elim (Option-cases (get c cs)) [
  | inl g ↦ cc (rw (g, update_at) at e)
  | inr (child, g) ↦
      let (r, e1, e2) = bind-eq-ok (update_at ds f child) _ (rw (g, update_at) at e) in
      below child g
        (λ child' u.
          update_at-IsWellFormed ds f child child' k (AllWellFormed-get c cs child h g).1 u)
        r e1 e2
]
  where
    below :
        (child : Inode)
        → get c cs ≡ some child
        → ((child' : Inode)
            → update_at ds f child ≡ ok (some child')
            → (name child' ≡ name child) × IsWellFormed child')
        → (r : Option Inode) → update_at ds f child ≡ ok r
        → ok (put_child a c cs r) ≡ ok (some m)
        → (name m ≡ name (node a cs)) × IsWellFormed m
    below child g ih none e1 e2 = absurd (some-none m (ok-injective e2))
    below child g ih (some child') e1 e2 =
        let (named, wf) = AllWellFormed-get c cs child h g in
        let (named', wf') = ih child' e1 in
        let same : node a (insert c child' cs) ≡ m = some-injective _ m (ok-injective e2) in
        subst (λ x. (name x ≡ a.name) × IsWellFormed x) same
          (refl, AllWellFormed-insert c child' cs (named' ∙ named) wf' h)

pub write_node-Keeps :
    (checks : Bool) (now offset : ℕ) (bs : Str) → Keeps (write_node checks now offset bs)
unfolding write_node IsWellFormed Keeps
write_node-Keeps checks now offset bs (node a cs) m h e =
    let (file, w, e') = bind-eq-ok (write_contents checks offset bs a.contents) _ e in
    subst (λ x. (name x ≡ a.name) × IsWellFormed x) (some-injective _ m (ok-injective e')) (refl, h)

pub remove_child-Keeps : (c : Str) → Keeps (remove_child c)
unfolding remove_child IsWellFormed Keeps
remove_child-Keeps c (node a cs) m h e = elim (Bool-cases (is_some (get c cs))) [
  | inl s ↦
      subst (λ x. (name x ≡ a.name) × IsWellFormed x)
        (some-injective _ m (ok-injective (rw s at e))) (refl, AllWellFormed-remove c cs h)
  | inr s ↦ absurd (some-none m (ok-injective (rw s at e)))
]

put_renamed-Keeps :
    (st : Stat) (c : Str) (a b : Attrs) (cs ds : Children) (m : Inode)
    → b.name ≡ c
    → AllWellFormed cs
    → AllWellFormed ds
    → put_renamed st c a cs b ds ≡ some m
    → (name m ≡ a.name) × IsWellFormed m
unfolding put_renamed IsWellFormed
put_renamed-Keeps st c a b cs ds m named h hd e = elim (Bool-cases (renames st c)) [
  | inl r ↦ elim (Bool-cases (is_some (get st.name cs))) [
    | inl taken ↦ absurd (some-none m (rw (r, taken) at e))
    | inr free ↦
        subst (λ x. (name x ≡ a.name) × IsWellFormed x) (some-injective _ m (rw (r, free) at e))
          (
            refl,
            AllWellFormed-insert st.name (node (record b { name = st.name }) ds) (remove c cs) refl
                hd (AllWellFormed-remove c cs h),
          )
  ]
  | inr r ↦
      subst (λ x. (name x ≡ a.name) × IsWellFormed x) (some-injective _ m (rw r at e))
        (refl, AllWellFormed-insert c (node b ds) cs named hd h)
]

pub wstat_child-Keeps : (st : Stat) (c : Str) → Keeps (wstat_child st c)
unfolding wstat_child wstat_attrs IsWellFormed Keeps
wstat_child-Keeps st c (node a cs) m h e = elim (Option-cases (get c cs)) [
  | inl g ↦ absurd (some-none m (ok-injective (rw (g, wstat_child) at e)))
  | inr (child, g) ↦ changed child g
]
  where
    changed : (child : Inode) → get c cs ≡ some child → (name m ≡ a.name) × IsWellFormed m
    changed (node b ds) g =
        let (named, wf) = AllWellFormed-get c cs (node b ds) h g in
        let (file, w, e') = bind-eq-ok (wstat_length st b.contents) _ (rw (g, wstat_child) at e) in
        put_renamed-Keeps st c a (wstat_attrs st (record b { contents = file })) cs ds m named h wf
          (ok-injective e')
