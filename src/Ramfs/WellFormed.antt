-- ===== src/Ramfs/WellFormed.antt =====
-- The shape of the trees of libs/planten_fs_ramfs/src/lib.rs: every child stands under its own name,
-- and no name stands twice.
use planten.Base.{◌≡◌, refl, sym, ap, ◌∙◌, Bool-cases, inl, inr, false, none, some}
use planten.Base.{Str, str_eq, str_eq_iff, str_eq_self}
use planten.Fs.Inode.{Inode, Children, node, empty, add, name}
use planten.Fs.Children.{get, insert, remove, get-insert, get-remove}
use mathlib.Core.Path.{subst}
use mathlib.Core.Option.{some-injective}

unfoldable mutual
  pub IsWellFormed : Inode → Type 0
  IsWellFormed (node a cs) = AllWellFormed cs

  pub AllWellFormed : Children → Type 0
  AllWellFormed empty = Unit
  AllWellFormed (add k n rest) =
      (name n ≡ k) × ((get k rest ≡ none) × (IsWellFormed n × AllWellFormed rest))

str_eq-comm_false : (s t : Str) → str_eq s t ≡ false → str_eq t s ≡ false
str_eq-comm_false s t h = elim (Bool-cases (str_eq t s)) [
  | inl e ↦ cc (rw ((str_eq_iff t s).0 e, str_eq_self s) at h)
  | inr e ↦ e
]

pub AllWellFormed-get :
    (k : Str) (cs : Children) (n : Inode)
    → AllWellFormed cs
    → get k cs ≡ some n
    → (name n ≡ k) × IsWellFormed n
unfolding get AllWellFormed
AllWellFormed-get k empty n h e = cc
AllWellFormed-get k (add j m rest) n (named, (alone, (wf, h))) e = elim (Bool-cases (str_eq j k)) [
  | inl s ↦
      let same : m ≡ n = some-injective m n (rw s at e) in
      (ap name (sym same) ∙ (named ∙ (str_eq_iff j k).0 s), subst IsWellFormed same wf)
  | inr s ↦ AllWellFormed-get k rest n h (rw s at e)
]

pub AllWellFormed-insert :
    (k : Str) (v : Inode) (cs : Children)
    → name v ≡ k
    → IsWellFormed v
    → AllWellFormed cs
    → AllWellFormed (insert k v cs)
unfolding get insert AllWellFormed
AllWellFormed-insert k v empty e w h = (e, (refl, (w, tt)))
AllWellFormed-insert k v (add j m rest) e w (named, (alone, (wf, h))) =
    elim (Bool-cases (str_eq j k)) [
      | inl s ↦ rw s (e, (subst (λ x. get x rest ≡ none) ((str_eq_iff j k).0 s) alone, (w, h)))
      | inr s ↦ rw s (
        named,
        (
          get-insert k j v rest ∙ rw (str_eq-comm_false j k s) alone,
          (wf, AllWellFormed-insert k v rest e w h),
        ),
      )
    ]

pub AllWellFormed-remove :
    (k : Str) (cs : Children) → AllWellFormed cs → AllWellFormed (remove k cs)
unfolding remove AllWellFormed
AllWellFormed-remove k empty h = tt
AllWellFormed-remove k (add j m rest) (named, (alone, (wf, h))) = elim (Bool-cases (str_eq j k)) [
  | inl s ↦ rw s (AllWellFormed-remove k rest h)
  | inr s ↦ rw s (
    named,
    (get-remove k j rest ∙ rw (str_eq-comm_false j k s) alone, (wf, AllWellFormed-remove k rest h)),
  )
]
