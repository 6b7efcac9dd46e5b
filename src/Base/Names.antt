-- ===== src/Base/Names.antt =====
-- `[&str]::contains` and `[String]::join`.
use mathlib.Core.Path.{◌≡◌, refl}
use mathlib.Core.Bool.{Bool, true, false, ◌||◌}
use native.Mathlib.Omega.{arith}
use mathlib.Core.List.{List, [], ◌∷◌, ◌++◌}
use planten.Base.Text.{Str, str_eq}

unfoldable pub contains : List Str → Str → Bool
contains [] name = false
contains (n ∷ ns) name = str_eq name n || contains ns name

unfoldable pub join : Str → List Str → Str
join sep [] = []
join sep (s ∷ []) = s
join sep (s ∷ t ∷ ts) = s ++ (sep ++ join sep (t ∷ ts))

pub contains-append :
    (ms ns : List Str) (name : Str)
    → contains (ms ++ ns) name ≡ (contains ms name || contains ns name)
unfolding contains
contains-append [] ns name = refl
contains-append (m ∷ ms) ns name = ground (arith, contains-append ms ns name)

pub contains-nil : (name : Str) → contains [] name ≡ true → ⊥
unfolding contains
contains-nil name h = cc
