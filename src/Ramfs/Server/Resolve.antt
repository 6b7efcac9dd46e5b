-- ===== src/Ramfs/Server/Resolve.antt =====
-- `resolve_step` of libs/planten_fs_ramfs/src/server.rs.
use planten.Base.{ℕ, zero, suc, Option, none, some, if◌then◌else◌, ◌==◌}
use planten.Base.{[], ◌∷◌, ◌++◌, Str, bytes, str_eq, take}
use planten.Fs.FilePath.{slash}

-- `trim_end_matches('/')`
unfoldable pub trim_end : Str → Str
trim_end [] = []
trim_end (c ∷ s) = elim (trim_end s) [ [] ↦ if c == slash then [] else c ∷ [] | d ∷ t ↦ c ∷ d ∷ t ]

-- `rfind('/')`: the index of the last slash.
unfoldable pub rfind : Str → Option ℕ
rfind [] = none
rfind (c ∷ s) = elim (rfind s) [
  | none ↦ if c == slash then some 0 else none
  | some i ↦ some (suc i)
]

-- `..` below a base that is not `/`.
unfoldable pub parent_path : Str → Str
parent_path base =
    let trimmed = trim_end base in
    elim (rfind trimmed) [
      | none ↦ bytes "/"
      | some zero ↦ bytes "/"
      | some (suc i) ↦ take (suc i) trimmed
    ]

-- `format!("/{}", component)` at the root, `format!("{}/{}", base, component)` elsewhere.
unfoldable pub child_path : Str → Str → Str
child_path base component =
    if str_eq base (bytes "/") then slash ∷ component else base ++ (slash ∷ component)

unfoldable pub resolve_step : Str → Str → Option Str
resolve_step base [] = none
resolve_step base (c ∷ s) =
    if str_eq (c ∷ s) (bytes ".")
    then some base
    else if str_eq (c ∷ s) (bytes "/")
    then some (bytes "/")
    else if str_eq (c ∷ s) (bytes "..")
    then (if str_eq base (bytes "/") then some (bytes "/") else some (parent_path base))
    else some (child_path base (c ∷ s))
