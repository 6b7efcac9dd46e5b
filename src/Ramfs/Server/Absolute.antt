-- ===== src/Ramfs/Server/Absolute.antt =====
-- Paths that start at the root, under `resolve_step` of libs/planten_fs_ramfs/src/server.rs.
use planten.Base.{◌∙◌, ℕ, zero, suc, ◌≡◌, refl, arith, Option, none, some, Bool-cases, inl, inr}
use planten.Base.{[], ◌∷◌, Str, bytes, str_eq, take}
use planten.Base.{lookup}
use planten.Fs.FilePath.{slash}
use planten.Ramfs.Server.Resolve.{trim_end, rfind, parent_path, child_path, resolve_step}
use planten.Ramfs.Server.State.{FidState, Server}

abbrev pub IsAbsolute : Str → Type 0
IsAbsolute [] = ⊥
IsAbsolute (c ∷ s) = c ≡ slash

-- What is left of a trimmed text starts as the text did.
trim_end-starts : (c : ℕ) (s : Str) (d : ℕ) (t : Str) → trim_end (c ∷ s) ≡ d ∷ t → d ≡ c
unfolding trim_end
trim_end-starts c s d t h = ground arith

take-rfind-IsAbsolute :
    (t : Str) (i : ℕ) → rfind t ≡ some i → IsAbsolute t → IsAbsolute (take (suc i) t)
take-rfind-IsAbsolute [] i e h = absurd h
take-rfind-IsAbsolute (d ∷ t) i e h = h

-- A `..` below an absolute base is absolute.
parent_path-IsAbsolute : (base : Str) → IsAbsolute base → IsAbsolute (parent_path base)
unfolding parent_path
parent_path-IsAbsolute [] h = absurd h
parent_path-IsAbsolute (c ∷ s) h = go (trim_end (c ∷ s)) refl
  where
    cut :
        (d : ℕ) (t : Str)
        → d ≡ slash
        → (o : Option ℕ)
        → IsAbsolute (elim o [
          | none ↦ bytes "/"
          | some zero ↦ bytes "/"
          | some (suc i) ↦ take (suc i) (d ∷ t)
        ])
    cut d t e none = refl
    cut d t e (some zero) = refl
    cut d t e (some (suc i)) = e

    go :
        (t : Str)
        → trim_end (c ∷ s) ≡ t
        → IsAbsolute (elim (rfind t) [
          | none ↦ bytes "/"
          | some zero ↦ bytes "/"
          | some (suc i) ↦ take (suc i) t
        ])
    go [] e = unfold rfind in refl
    go (d ∷ t) e = cut d t (trim_end-starts c s d t e ∙ h) (rfind (d ∷ t))

child_path-IsAbsolute : (base name : Str) → IsAbsolute base → IsAbsolute (child_path base name)
unfolding child_path
child_path-IsAbsolute [] name h = absurd h
child_path-IsAbsolute (c ∷ s) name h = elim (Bool-cases (str_eq (c ∷ s) (bytes "/"))) [
  | inl e ↦ rw e refl
  | inr e ↦ rw e h
]

-- A step from an absolute path, by whatever component, leads to an absolute path or nowhere.
pub resolve_step-IsAbsolute :
    (base name path : Str) → IsAbsolute base → resolve_step base name ≡ some path → IsAbsolute path
unfolding resolve_step
resolve_step-IsAbsolute base [] path h e = cc
resolve_step-IsAbsolute base (c ∷ s) path h e =
    ground (arith, parent_path-IsAbsolute base, child_path-IsAbsolute base (c ∷ s))

-- Every fid stands for an absolute path.
pub record FidsAbsolute (s : Server) : Type 0 where
  pub at : (k : ℕ) (st : FidState) → lookup k s.fid_states ≡ some st → IsAbsolute st.path
