-- ===== src/Fs/Children.antt =====
-- The operations of `HashMap<String, Inode>` that the code uses, and their laws.
use planten.Base.{◌≡◌, refl, arith, Option, none, some, if◌then◌else◌, Str, str_eq, str_eq_iff}
use planten.Base.{List, [], ◌∷◌}
use planten.Fs.Inode.{Inode, Children, empty, add}

unfoldable pub get : Str → Children → Option Inode
get k empty = none
get k (add j n rest) = if str_eq j k then some n else get k rest

unfoldable pub insert : Str → Inode → Children → Children
insert k v empty = add k v empty
insert k v (add j n rest) = if str_eq j k then add k v rest else add j n (insert k v rest)

unfoldable pub remove : Str → Children → Children
remove k empty = empty
remove k (add j n rest) = let left = remove k rest in if str_eq j k then left else add j n left

unfoldable pub keys : Children → List Str
keys empty = []
keys (add k n rest) = k ∷ keys rest

pub get-insert :
    (k j : Str) (v : Inode) (cs : Children)
    → get j (insert k v cs) ≡ (if str_eq k j then some v else get j cs)
unfolding get insert
get-insert k j v empty = refl
get-insert k j v (add i n rest) =
    ground (arith, str_eq_iff k j, str_eq_iff i k, str_eq_iff i j, get-insert k j v rest)

pub get-remove :
    (k j : Str) (cs : Children) → get j (remove k cs) ≡ (if str_eq k j then none else get j cs)
unfolding get remove
get-remove k j empty = ground arith
get-remove k j (add i n rest) =
    ground (arith, str_eq_iff k j, str_eq_iff i k, str_eq_iff i j, get-remove k j rest)
