-- ===== src/Ramfs/Sort.antt =====
-- `entries.sort()` on `Vec<String>`: the order of `str` is that of its bytes.
use planten.Base.{
  ◌≡◌, refl, ap, ◌∙◌, ◌||◌, contains, str_eq, arith, Bool, true, false, ◌==◌, ltb, if◌then◌else◌,
  Str,
}
use planten.Base.{List, [], ◌∷◌, Bool-cases, inl, inr, All}
use mathlib.Core.List.{Perm}
use mathlib.Core.List.Perm

unfoldable pub str_le : Str → Str → Bool
str_le [] t = true
str_le (a ∷ s) [] = false
str_le (a ∷ s) (b ∷ t) = if a == b then str_le s t else ltb a b

insert_sorted : Str → List Str → List Str
insert_sorted x [] = x ∷ []
insert_sorted x (y ∷ ys) = if str_le x y then x ∷ y ∷ ys else y ∷ insert_sorted x ys

-- A stable sort, as `slice::sort`.
unfoldable pub sort : List Str → List Str
unfolding insert_sorted
sort [] = []
sort (x ∷ xs) = insert_sorted x (sort xs)

-- Each entry is at most the next ones.
abbrev pub IsSorted : List Str → Type 0
IsSorted [] = Unit {0}
IsSorted (x ∷ xs) = All (λ y. str_le x y ≡ true) xs × IsSorted xs

str_le_total : (s t : Str) → str_le s t ≡ false → str_le t s ≡ true
unfolding str_le
str_le_total [] t h = cc
str_le_total (a ∷ s) [] h = refl
str_le_total (a ∷ s) (b ∷ t) h = ground (arith, str_le_total s t)

str_le_trans : (s t u : Str) → str_le s t ≡ true → str_le t u ≡ true → str_le s u ≡ true
unfolding str_le
str_le_trans [] t u h k = refl
str_le_trans (a ∷ s) [] u h k = cc
str_le_trans (a ∷ s) (b ∷ t) [] h k = cc
str_le_trans (a ∷ s) (b ∷ t) (c ∷ u) h k = ground (arith, str_le_trans s t u)

All-le_trans :
    (x y : Str) (zs : List Str)
    → str_le x y ≡ true
    → All (λ z. str_le y z ≡ true) zs
    → All (λ z. str_le x z ≡ true) zs
All-le_trans x y [] h k = tt
All-le_trans x y (z ∷ zs) h (k, ks) = (str_le_trans x y z h k, All-le_trans x y zs h ks)

All-le_insert :
    (z x : Str) (ys : List Str)
    → str_le z x ≡ true
    → All (λ y. str_le z y ≡ true) ys
    → All (λ y. str_le z y ≡ true) (insert_sorted x ys)
unfolding insert_sorted
All-le_insert z x [] h k = (h, tt)
All-le_insert z x (y ∷ ys) h (k, ks) = elim (Bool-cases (str_le x y)) [
  | inl e ↦ rw e (h, (k, ks))
  | inr e ↦ rw e (k, All-le_insert z x ys h ks)
]

insert_sorted-IsSorted : (x : Str) (ys : List Str) → IsSorted ys → IsSorted (insert_sorted x ys)
unfolding insert_sorted
insert_sorted-IsSorted x [] h = (tt, tt)
insert_sorted-IsSorted x (y ∷ ys) (h, hs) = elim (Bool-cases (str_le x y)) [
  | inl e ↦ rw e ((e, All-le_trans x y ys e h), (h, hs))
  | inr e ↦ rw e (All-le_insert y x ys (str_le_total x y e) h, insert_sorted-IsSorted x ys hs)
]

pub sort-IsSorted : (xs : List Str) → IsSorted (sort xs)
unfolding sort
sort-IsSorted [] = tt
sort-IsSorted (x ∷ xs) = insert_sorted-IsSorted x (sort xs) (sort-IsSorted xs)

insert_sorted-perm : (x : Str) (ys : List Str) → Perm (insert_sorted x ys) (x ∷ ys)
unfolding insert_sorted
insert_sorted-perm x [] = Perm.refl (x ∷ [])
insert_sorted-perm x (y ∷ ys) = elim (Bool-cases (str_le x y)) [
  | inl e ↦ rw e (Perm.refl (x ∷ y ∷ ys))
  | inr e ↦ rw e (Perm.trans (Perm.cons y (insert_sorted-perm x ys)) (Perm.swap x y ys))
]

pub sort-perm : (xs : List Str) → Perm (sort xs) xs
unfolding sort
sort-perm [] = Perm.refl []
sort-perm (x ∷ xs) = Perm.trans (insert_sorted-perm x (sort xs)) (Perm.cons x (sort-perm xs))

contains-insert_sorted :
    (x : Str) (ys : List Str) (name : Str)
    → contains (insert_sorted x ys) name ≡ (str_eq name x || contains ys name)
unfolding insert_sorted contains
contains-insert_sorted x [] name = refl
contains-insert_sorted x (y ∷ ys) name = elim (Bool-cases (str_le x y)) [
  | inl e ↦ rw e refl
  | inr e ↦ rw e (ground (arith, contains-insert_sorted x ys name))
]

pub contains-sort : (xs : List Str) (name : Str) → contains (sort xs) name ≡ contains xs name
unfolding sort contains
contains-sort [] name = refl
contains-sort (x ∷ xs) name =
    contains-insert_sorted x (sort xs) name ∙ ap (λ b. str_eq name x || b) (contains-sort xs name)
