-- ===== src/Ramfs/Parent.antt =====
-- A path as its parent's path and a last component, as `split_last` takes it.
use planten.Base.{◌≡◌, refl, sym, ap, ◌∙◌, arith, false, some, inl, inr}
use planten.Base.{Option-cases, List, [], ◌∷◌, ◌++◌, Str, str_eq}
use planten.Fs.Inode.{Attrs, Inode, Children, node}
use planten.Fs.Children.{get}
use planten.Ramfs.Tree.{stat_at, split_last}
use planten.Ramfs.Lookup.{Diverges, Diverges-cases, last_of, stat_at-cons}
use planten.Ramfs.Lookup.{stat_at-insert_self, stat_at-insert_ne}
use mathlib.Core.Option.{some-injective}
use planten.Ramfs.Update.{replace_at, stat_at-append}
use planten.Ramfs.Update.{stat_at-append_none}

pub split_last-cons :
    (c : Str) (p : List Str)
    → (front : List Str) × (split_last (c ∷ p) ≡ some (front, last_of c p))
      × (c ∷ p ≡ front ++ (last_of c p ∷ []))
unfolding split_last
split_last-cons c [] = ([], refl, refl)
split_last-cons c (d ∷ p) =
    let (front, e, a) = split_last-cons d p in (c ∷ front, rw (e, split_last), ap (λ l. c ∷ l) a)

pub get_of_stat_at :
    (c : Str) (a : Attrs) (cs : Children) (m : Inode)
    → stat_at (c ∷ []) (node a cs) ≡ some m
    → get c cs ≡ some m
unfolding stat_at
get_of_stat_at c a cs m h = ground arith

-- What is found below the root is a child of what its parent's path finds.
pub parent_of :
    (front : List Str) (last : Str) (n m : Inode)
    → stat_at (front ++ (last ∷ [])) n ≡ some m
    → (a : Attrs) × (cs : Children) × (stat_at front n ≡ some (node a cs)) × (get last cs ≡ some m)
parent_of front last n m h = elim (Option-cases (stat_at front n)) [
  | inl e ↦ cc (h, stat_at-append_none front (last ∷ []) n e)
  | inr (node a cs, e) ↦ (
    a,
    cs,
    e,
    get_of_stat_at last a cs m (sym (stat_at-append front (last ∷ []) n (node a cs) e) ∙ h),
  )
]

beside_root :
    (d : Str) (q : List Str) (p p' n : Inode)
    → stat_at [] n ≡ some p
    → stat_at (d ∷ q) p' ≡ stat_at (d ∷ q) p
    → stat_at (d ∷ q) p' ≡ stat_at (d ∷ q) n
unfolding stat_at
beside_root d q p p' n e h = rw (some-injective n p e) h

-- Beside the last component, a replaced parent shows what its other children show.
pub stat_at-beside :
    (front : List Str) (last : Str) (q : List Str) (n p p' : Inode)
    → stat_at front n ≡ some p
    → ((d : Str) (r : List Str) → str_eq last d ≡ false → stat_at (d ∷ r) p' ≡ stat_at (d ∷ r) p)
    → Diverges (front ++ (last ∷ [])) q
    → stat_at q (replace_at front p' n) ≡ stat_at q n
unfolding replace_at
stat_at-beside [] last [] n p p' e h d = absurd d
stat_at-beside [] last (d ∷ q) n p p' e h v = elim (Diverges-cases last d [] q v) [
  | inl r ↦ beside_root d q p p' n e (h d q r)
  | inr (r, i) ↦ absurd i
]
stat_at-beside (c ∷ front) last [] n p p' e h d = absurd d
stat_at-beside (c ∷ front) last (d ∷ q) (node a cs) p p' e h v = elim (Option-cases (get c cs)) [
  | inl g ↦ rw (g, replace_at) refl
  | inr (k, g) ↦
      rw (g, replace_at)
        (elim (Diverges-cases c d (front ++ (last ∷ [])) q v) [
          | inl r ↦ stat_at-insert_ne c d q a a _ cs r
          | inr (r, i) ↦ rw (← r) (
              stat_at-insert_self c q a _ cs
              ∙ stat_at-beside front last q k p p' (sym (stat_at-cons c front a cs k g) ∙ e) h i
              ∙ sym (stat_at-cons c q a cs k g))
        ])
]

-- `split_last` returns what the path is made of.
pub split_last-eq_some :
    (p front : List Str) (last : Str) → split_last p ≡ some (front, last) → p ≡ front ++ (last ∷ [])
split_last-eq_some [] front last h = unfold split_last in cc
split_last-eq_some (c ∷ p) front last h =
    let (front', s, a) = split_last-cons c p in
    let e = some-injective (front', last_of c p) (front, last) (sym s ∙ h) in
    a ∙ ap (λ (x : List Str × Str). x.0 ++ (x.1 ∷ [])) e
