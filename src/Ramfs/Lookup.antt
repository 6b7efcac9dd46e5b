-- ===== src/Ramfs/Lookup.antt =====
-- How the operations on the tree change what a path finds.
use planten.Base.{ℕ, ◌≡◌, refl, ap, ◌∙◌, arith, false, Bool-cases, inl, inr, ◌⊎◌}
use planten.Base.{none, some, if◌then◌else◌, Option-cases, length}
use planten.Base.{List, [], ◌∷◌, Str, str_eq, str_eq_self, str_eq_iff}
use mathlib.Core.Option
use mathlib.Core.Option.{some-injective}
use planten.Fs.Inode.{Attrs, Inode, Children, node, children, contents, new}
use planten.Fs.Children.{get, insert, get-insert}
use planten.Ramfs.Tree.{new_file, new_dir, later, or_else, with_contents}
use planten.Ramfs.Tree.{create_file_at, create_dir_at, stat_at, read_file_at}

-- Two paths that part at some component: neither leads through the other.
abbrev pub Diverges : List Str → List Str → Type 0
Diverges [] q = ⊥
Diverges (c ∷ p) [] = ⊥
Diverges (c ∷ p) (d ∷ q) = if str_eq c d then Diverges p q else Unit

pub get-insert_self : (k : Str) (v : Inode) (cs : Children) → get k (insert k v cs) ≡ some v
get-insert_self k v cs = rw get-insert (rw str_eq_self)

pub stat_at-cons :
    (c : Str) (p : List Str) (a : Attrs) (cs : Children) (k : Inode)
    → get c cs ≡ some k
    → stat_at (c ∷ p) (node a cs) ≡ stat_at p k
unfolding stat_at
stat_at-cons c p a cs k e = rw (e, stat_at) refl

pub stat_at-cons_none :
    (c : Str) (p : List Str) (a : Attrs) (cs : Children)
    → get c cs ≡ none
    → stat_at (c ∷ p) (node a cs) ≡ none
unfolding stat_at
stat_at-cons_none c p a cs e = rw (e, stat_at) refl

-- What a path finds behind a child that was put in place.
pub stat_at-insert_self :
    (c : Str) (p : List Str) (a : Attrs) (v : Inode) (cs : Children)
    → stat_at (c ∷ p) (node a (insert c v cs)) ≡ stat_at p v
unfolding stat_at
stat_at-insert_self c p a v cs = rw (stat_at, get-insert_self c v cs)

pub stat_at-insert_ne :
    (c d : Str) (q : List Str) (a b : Attrs) (v : Inode) (cs : Children)
    → str_eq c d ≡ false
    → stat_at (d ∷ q) (node a (insert c v cs)) ≡ stat_at (d ∷ q) (node b cs)
unfolding stat_at
stat_at-insert_ne c d q a b v cs h = rw (stat_at, get-insert, h)

-- The two branches of a path `q` beside `c ∷ p` that diverges from it.
pub Diverges-cases :
    (c d : Str) (p q : List Str)
    → Diverges (c ∷ p) (d ∷ q)
    → (str_eq c d ≡ false) ⊎ ((c ≡ d) × Diverges p q)
Diverges-cases c d p q h = elim (Bool-cases (str_eq c d)) [
  | inl e ↦ inr ((str_eq_iff c d).0 e, rw e at h)
  | inr e ↦ inl e
]

-- A path of at least one component reads the contents of what it finds.
pub read_file_at-stat_at :
    (c : Str) (p : List Str) (n : Inode)
    → read_file_at (c ∷ p) n ≡ Option.map contents (stat_at (c ∷ p) n)
unfolding stat_at read_file_at
read_file_at-stat_at c [] n = ground arith
read_file_at-stat_at c (d ∷ p) n = elim (Option-cases (get c (children n))) [
  | inl e ↦ rw (e, read_file_at, stat_at) refl
  | inr (k, e) ↦ rw (e, read_file_at, stat_at) (read_file_at-stat_at d p k)
]

-- The last component of a path that starts with `c`.
abbrev pub last_of : Str → List Str → Str
last_of c [] = c
last_of c (d ∷ ds) = last_of d ds

-- A fresh directory has nothing in it, as the missing child before it.
or_new-stat_at :
    (now : ℕ) (c d : Str) (q : List Str) (a : Attrs) (cs : Children)
    → stat_at (d ∷ q) (or_else (get c cs) (new_dir now c)) ≡ stat_at (c ∷ d ∷ q) (node a cs)
unfolding stat_at get new
or_new-stat_at now c d q a cs = elim (Option-cases (get c cs)) [
  | inl r ↦ rw (r, stat_at) refl
  | inr (k, r) ↦ rw (r, stat_at) refl
]

or_new-stat_at_ne :
    (now : ℕ) (c : Str) (p q : List Str) (a : Attrs) (cs : Children)
    → Diverges p q
    → stat_at q (or_else (get c cs) (new_dir now c)) ≡ stat_at (c ∷ q) (node a cs)
or_new-stat_at_ne now c [] q a cs h = absurd h
or_new-stat_at_ne now c (d ∷ p) [] a cs h = absurd h
or_new-stat_at_ne now c (d ∷ p) (e ∷ q) a cs h = or_new-stat_at now c e q a cs

module _ (bs : Str) where
  -- `create_file` puts a new file at its path.
  pub stat_at-create_file_at :
      (now : ℕ → ℕ) (c : Str) (p : List Str) (n : Inode)
      → stat_at (c ∷ p) (create_file_at now (c ∷ p) bs n)
        ≡ some (with_contents bs (new_file (now (length p)) (last_of c p)))
  unfolding create_file_at
  stat_at-create_file_at now c [] (node a cs) =
      stat_at-insert_self c [] a _ cs ∙ unfold stat_at in refl
  stat_at-create_file_at now c (d ∷ p) (node a cs) =
      stat_at-insert_self c (d ∷ p) a _ cs ∙ stat_at-create_file_at (later now) d p _

  -- and leaves what other paths find.
  pub stat_at-create_file_at_ne :
      (now : ℕ → ℕ) (p q : List Str) (n : Inode)
      → Diverges p q
      → stat_at q (create_file_at now p bs n) ≡ stat_at q n
  unfolding create_file_at
  stat_at-create_file_at_ne now [] q n h = absurd h
  stat_at-create_file_at_ne now (c ∷ p) [] n h = absurd h
  stat_at-create_file_at_ne now (c ∷ []) (d ∷ q) (node a cs) h = elim (Diverges-cases c d [] q h) [
    | inl e ↦ stat_at-insert_ne c d q a a _ cs e
    | inr (e, i) ↦ absurd i
  ]
  stat_at-create_file_at_ne now (c ∷ d ∷ p) (e ∷ q) (node a cs) h =
      elim (Diverges-cases c e (d ∷ p) q h) [
        | inl r ↦ stat_at-insert_ne c e q a a _ cs r
        | inr (r, i) ↦
            let child = or_else (get c cs) (new_dir (now 0) c) in
            rw (← r) (
              stat_at-insert_self c q a _ cs
              ∙ stat_at-create_file_at_ne (later now) (d ∷ p) q child i
              ∙ or_new-stat_at_ne (now 0) c (d ∷ p) q a cs i)
      ]

-- `create_dir` keeps what stands at its path, or puts a new directory there.
pub stat_at-create_dir_at :
    (now : ℕ → ℕ) (c : Str) (p : List Str) (n : Inode)
    → stat_at (c ∷ p) (create_dir_at now (c ∷ p) n)
      ≡ some (or_else (stat_at (c ∷ p) n) (new_dir (now (length p)) (last_of c p)))
unfolding create_dir_at
stat_at-create_dir_at now c [] (node a cs) =
    stat_at-insert_self c [] a _ cs ∙ unfold stat_at in ground arith
stat_at-create_dir_at now c (d ∷ p) (node a cs) =
    let child = or_else (get c cs) (new_dir (now 0) c) in
    stat_at-insert_self c (d ∷ p) a _ cs
    ∙ stat_at-create_dir_at (later now) d p child
    ∙ ap (λ o. some (or_else o (new_dir (now (length (d ∷ p))) (last_of d p))))
        (or_new-stat_at (now 0) c d p a cs)

pub stat_at-create_dir_at_ne :
    (now : ℕ → ℕ) (p q : List Str) (n : Inode)
    → Diverges p q
    → stat_at q (create_dir_at now p n) ≡ stat_at q n
unfolding create_dir_at
stat_at-create_dir_at_ne now [] q n h = absurd h
stat_at-create_dir_at_ne now (c ∷ p) [] n h = absurd h
stat_at-create_dir_at_ne now (c ∷ p) (e ∷ q) (node a cs) h = elim (Diverges-cases c e p q h) [
  | inl r ↦ stat_at-insert_ne c e q a a _ cs r
  | inr (r, i) ↦
      let child = or_else (get c cs) (new_dir (now 0) c) in
      rw (← r) (
        stat_at-insert_self c q a _ cs
        ∙ stat_at-create_dir_at_ne (later now) p q child i
        ∙ or_new-stat_at_ne (now 0) c p q a cs i)
]
