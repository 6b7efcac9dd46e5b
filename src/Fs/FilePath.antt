-- ===== src/Fs/FilePath.antt =====
-- `path.split('/').filter(|s| !s.is_empty()).collect()`, which every file system starts with.
use planten.Base.{ℕ, ◌≡◌, refl, ap, arith, if◌then◌else◌, ◌==◌, Str}
use planten.Base.{List, [], ◌∷◌, ◌++◌, Bool-cases, inl, inr, All, ◌≢◌}

abbrev pub slash : ℕ
slash = b'/'

-- Another character of the first piece.
abbrev push : ℕ → List Str → List Str
push c [] = (c ∷ []) ∷ []
push c (p ∷ ps) = (c ∷ p) ∷ ps

unfoldable pub split : Str → List Str
split [] = [] ∷ []
split (c ∷ s) = let rest = split s in if c == slash then [] ∷ rest else push c rest

unfoldable pub non_empty : List Str → List Str
non_empty [] = []
non_empty ([] ∷ ps) = non_empty ps
non_empty ((c ∷ p) ∷ ps) = (c ∷ p) ∷ non_empty ps

unfoldable pub components : Str → List Str
components path = non_empty (split path)

-- A name that is one component: not empty, and without a slash.
abbrev pub NoSlash : Str → Type 0
NoSlash s = All (λ c. c ≢ slash) s

abbrev pub IsComponent : Str → Type 0
IsComponent [] = ⊥
IsComponent (c ∷ s) = NoSlash (c ∷ s)

split-NoSlash : (s : Str) → NoSlash s → split s ≡ s ∷ []
unfolding split
split-NoSlash [] h = refl
split-NoSlash (c ∷ s) (h, hs) = ground (arith, split-NoSlash s hs)

split-ne-nil : (s : Str) → (p : Str) × (ps : List Str) × (split s ≡ p ∷ ps)
unfolding split
split-ne-nil [] = ([], [], refl)
split-ne-nil (c ∷ s) = elim (Bool-cases (c == slash)) [
  | inl e ↦ ([], split s, rw e)
  | inr e ↦ let (p, ps, q) = split-ne-nil s in (c ∷ p, ps, rw (e, q))
]

-- Splitting at a slash between two texts.
split-append-slash : (s t : Str) → split (s ++ (slash ∷ t)) ≡ split s ++ split t
unfolding split
split-append-slash [] t = refl
split-append-slash (c ∷ s) t = elim (Bool-cases (c == slash)) [
  | inl e ↦ rw (e, split-append-slash s t)
  | inr e ↦ let (p, ps, q) = split-ne-nil s in rw (e, split-append-slash s t, q)
]

non_empty-append : (ps qs : List Str) → non_empty (ps ++ qs) ≡ non_empty ps ++ non_empty qs
unfolding non_empty
non_empty-append [] qs = refl
non_empty-append ([] ∷ ps) qs = non_empty-append ps qs
non_empty-append ((c ∷ p) ∷ ps) qs = ap (λ l. (c ∷ p) ∷ l) (non_empty-append ps qs)

-- The components of two texts with a slash between them.
pub components-append-slash :
    (s t : Str) → components (s ++ (slash ∷ t)) ≡ components s ++ components t
unfolding components
components-append-slash s t = rw (split-append-slash s t) (non_empty-append (split s) (split t))

pub components-IsComponent : (s : Str) → IsComponent s → components s ≡ s ∷ []
unfolding components non_empty
components-IsComponent [] h = absurd h
components-IsComponent (c ∷ s) h = rw (split-NoSlash (c ∷ s) h)
