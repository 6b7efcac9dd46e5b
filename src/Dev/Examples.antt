-- ===== src/Dev/Examples.antt =====
-- The devices of libs/planten_fs_dev/src/lib.rs at small inputs.
use planten.Base.{◌≡◌, refl, none, some, is_some, if◌then◌else◌, [], ◌∷◌, bytes, str_eq, contains}
use planten.Dev.{from_name, read_device, walk_dev, open_dev, read_dev, write_dev, stat_dev}
use planten.Dev.Devices.{open_dev-agrees}

open_dev-agrees_example :
    (is_some (walk_dev (bytes "null" ∷ [])) ≡ is_some (open_dev (bytes "null" ∷ [])))
    × (is_some (read_dev (λ n. n) (bytes "null" ∷ [])) ≡ is_some (open_dev (bytes "null" ∷ [])))
    × (is_some (stat_dev (λ n. n) (bytes "null" ∷ [])) ≡ is_some (open_dev (bytes "null" ∷ [])))
    × (write_dev (bytes "null" ∷ []) (bytes "ab")
        ≡ (if is_some (open_dev (bytes "null" ∷ [])) then some 2 else none))
open_dev-agrees_example = open_dev-agrees (λ n. n) (λ n. n) (bytes "null" ∷ []) (bytes "ab")

read_null : read_dev (λ n. n) (bytes "null" ∷ []) ≡ some []
unfolding read_dev contains from_name read_device str_eq
read_null = refl
