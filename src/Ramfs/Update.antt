-- ===== src/Ramfs/Update.antt =====
-- `update_at`: the loops over `get_mut` of libs/planten_fs_ramfs/src/lib.rs, in terms of what a path
-- finds before and after.
use planten.Base.{◌≡◌, refl, sym, ap, ◌∙◌, inl, inr}
use planten.Base.{Option, none, some, Res, ok, err, panic, ◌>>=◌, Option-cases}
use planten.Base.{List, [], ◌∷◌, ◌++◌, Str}
use mathlib.Core.Option
use mathlib.Core.Path.{subst}
use mathlib.Core.List.{append-nil}
use mathlib.Core.Option.{some-injective}
use planten.Fs.Inode.{Attrs, Inode, Children, node}
use planten.Fs.Children.{get, insert}
use planten.Ramfs.Tree.{stat_at, update_at, put_child}
use planten.Ramfs.Lookup.{Diverges, Diverges-cases, stat_at-cons, stat_at-cons_none}
use planten.Ramfs.Lookup.{stat_at-insert_self, stat_at-insert_ne}

-- `update_at` on a tree where the path leads somewhere: the change of what stands there, put in place.
unfoldable pub replace_at : List Str → Inode → Inode → Inode
replace_at [] m n = m
replace_at (c ∷ p) m (node a cs) = elim (get c cs) [
  | none ↦ node a cs
  | some k ↦ node a (insert c (replace_at p m k) cs)
]

map_id : (r : Res (Option Inode)) → r ≡ (r >>= λ o. ok (Option.map (λ m. m) o))
map_id (ok none) = refl
map_id (ok (some m)) = refl
map_id (err e) = refl
map_id panic = refl

put_child-map :
    (a : Attrs) (c : Str) (cs : Children) (g : Inode → Inode) (r : Res (Option Inode))
    → ((r >>= λ o. ok (Option.map g o)) >>= λ o. ok (put_child a c cs o))
      ≡ (r >>= λ o. ok (Option.map (λ m. node a (insert c (g m) cs)) o))
put_child-map a c cs g (ok none) = refl
put_child-map a c cs g (ok (some m)) = refl
put_child-map a c cs g (err e) = refl
put_child-map a c cs g panic = refl

pub update_at-found :
    (p : List Str) (f : Inode → Res (Option Inode)) (n m : Inode)
    → stat_at p n ≡ some m
    → update_at p f n ≡ (f m >>= λ r. ok (Option.map (λ m'. replace_at p m' n) r))
unfolding stat_at update_at replace_at
update_at-found [] f n m h = ap f (some-injective n m h) ∙ map_id (f m)
update_at-found (c ∷ p) f (node a cs) m h = elim (Option-cases (get c cs)) [
  | inl e ↦ cc (rw (e, stat_at) at h)
  | inr (k, e) ↦
      rw (e, update_at, replace_at, update_at-found p f k m (rw (e, stat_at) at h))
        (put_child-map a c cs (λ m'. replace_at p m' k) (f m))
]

pub update_at-missing :
    (p : List Str) (f : Inode → Res (Option Inode)) (n : Inode)
    → stat_at p n ≡ none
    → update_at p f n ≡ ok none
unfolding stat_at update_at
update_at-missing [] f n h = cc
update_at-missing (c ∷ p) f (node a cs) h = elim (Option-cases (get c cs)) [
  | inl e ↦ rw (e, update_at) refl
  | inr (k, e) ↦ rw (e, update_at, update_at-missing p f k (rw (e, stat_at) at h)) refl
]

-- What stands at and behind the path after the replacement.
pub stat_at-replace_at :
    (p q : List Str) (m' n m : Inode)
    → stat_at p n ≡ some m
    → stat_at (p ++ q) (replace_at p m' n) ≡ stat_at q m'
unfolding replace_at
stat_at-replace_at [] q m' n m h = refl
stat_at-replace_at (c ∷ p) q m' (node a cs) m h = elim (Option-cases (get c cs)) [
  | inl e ↦ cc (h, stat_at-cons_none c p a cs e)
  | inr (k, e) ↦
      rw (e, replace_at)
        (stat_at-insert_self c (p ++ q) a _ cs
          ∙ stat_at-replace_at p q m' k m (sym (stat_at-cons c p a cs k e) ∙ h))
]

pub stat_at-replace_at_ne :
    (p q : List Str) (m' n : Inode) → Diverges p q → stat_at q (replace_at p m' n) ≡ stat_at q n
unfolding replace_at
stat_at-replace_at_ne [] q m' n h = absurd h
stat_at-replace_at_ne (c ∷ p) [] m' n h = absurd h
stat_at-replace_at_ne (c ∷ p) (d ∷ q) m' (node a cs) h = elim (Option-cases (get c cs)) [
  | inl e ↦ rw (e, replace_at) refl
  | inr (k, e) ↦
      rw (e, replace_at)
        (elim (Diverges-cases c d p q h) [
          | inl r ↦ stat_at-insert_ne c d q a a _ cs r
          | inr (r, i) ↦ rw (← r) (
              stat_at-insert_self c q a _ cs
              ∙ stat_at-replace_at_ne p q m' k i
              ∙ sym (stat_at-cons c q a cs k e))
        ])
]

pub stat_at-replace_at_self :
    (p : List Str) (m' n m : Inode) → stat_at p n ≡ some m → stat_at p (replace_at p m' n) ≡ some m'
unfolding stat_at
stat_at-replace_at_self p m' n m e =
    subst (λ l. stat_at l (replace_at p m' n) ≡ some m') (append-nil p)
      (stat_at-replace_at p [] m' n m e)

pub stat_at-append :
    (p q : List Str) (n m : Inode) → stat_at p n ≡ some m → stat_at (p ++ q) n ≡ stat_at q m
unfolding stat_at
stat_at-append [] q n m h = ap (λ k. stat_at q k) (some-injective n m h)
stat_at-append (c ∷ p) q (node a cs) m h = elim (Option-cases (get c cs)) [
  | inl e ↦ cc (rw (e, stat_at) at h)
  | inr (k, e) ↦ rw (e, stat_at) (stat_at-append p q k m (rw (e, stat_at) at h))
]

pub stat_at-append_none :
    (p q : List Str) (n : Inode) → stat_at p n ≡ none → stat_at (p ++ q) n ≡ none
unfolding stat_at
stat_at-append_none [] q n h = cc
stat_at-append_none (c ∷ p) q (node a cs) h = elim (Option-cases (get c cs)) [
  | inl e ↦ rw (e, stat_at) refl
  | inr (k, e) ↦ rw (e, stat_at) (stat_at-append_none p q k (rw (e, stat_at) at h))
]
