-- ===== src/Dev/Devices.antt =====
-- The methods of `DevFs` against each other (libs/planten_fs_dev/src/lib.rs).
use planten.Base.{
  ℕ, ◌%◌, ◌^◌, ◌≡◌, refl, true, false, Bool, Bool-cases, inl, inr, none, some, is_some,
  Option-cases,
}
use planten.Base.{List, [], ◌∷◌, Str, length, contains, if◌then◌else◌, arith}
use planten.Dev.{
  dev_entries, DevFile, from_name, write_device, walk_dev, open_dev, read_dev, write_dev,
}
use planten.Dev.{stat_dev, console, null_file, zero_file, random_file}

-- The entries are the names of devices.
from_name-contains : (name : Str) → contains dev_entries name ≡ is_some (from_name name)
unfolding contains from_name
from_name-contains name = ground arith

from_name_there :
    (name : Str)
    → contains dev_entries name ≡ true
    → (file : DevFile) × (from_name name ≡ some file)
from_name_there name h = elim (Option-cases (from_name name)) [
  | inl e ↦ cc (rw (from_name-contains name, e) at h)
  | inr (file, e) ↦ (file, e)
]

write_device-eq : (file : DevFile) (n : ℕ) → write_device file n ≡ n
unfolding write_device
write_device-eq console n = refl
write_device-eq null_file n = refl
write_device-eq zero_file n = refl
write_device-eq random_file n = refl

abbrev pub is_root : List Str → Bool
is_root [] = true
is_root (name ∷ names) = false

-- On any path, `walk`, `read` and `stat` succeed exactly where `open` does, which `write` does as well,
-- except at the root, with the number of its bytes.
pub open_dev-agrees :
    (now random : ℕ → ℕ) (p : List Str) (bs : Str)
    → (is_some (walk_dev p) ≡ is_some (open_dev p))
      × (is_some (read_dev random p) ≡ is_some (open_dev p))
      × (is_some (stat_dev now p) ≡ is_some (open_dev p))
      × (write_dev p bs ≡ (
          if is_root p
          then none
          else if is_some (open_dev p)
          then some (length bs % 2 ^ 32)
          else none))
unfolding walk_dev open_dev read_dev stat_dev write_dev
open_dev-agrees now random [] bs = (refl, refl, refl, refl)
open_dev-agrees now random (name ∷ []) bs = elim (Bool-cases (contains dev_entries name)) [
  | inl e ↦
      let (file, f) = from_name_there name e in
      rw (e, f, write_device-eq file (length bs)) (refl, refl, refl, refl)
  | inr e ↦ rw e (refl, refl, refl, refl)
]
open_dev-agrees now random (a ∷ b ∷ names) bs = (refl, refl, refl, refl)
