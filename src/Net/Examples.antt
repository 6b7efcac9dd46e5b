-- ===== src/Net/Examples.antt =====
-- The entries of libs/planten_fs_net/src/lib.rs at a small input.
use planten.Base.{◌≡◌, refl, none, some, [], ◌∷◌, bytes, str_eq, contains, join}
use planten.Ramfs.Sort.{sort, str_le}
use planten.Net.{NetHost, read_net, read_entry, read_interfaces}

abbrev a_host : NetHost
a_host = record { interfaces = some (bytes "lo" ∷ bytes "eth0" ∷ []); proc_file = λ name. none }

interfaces_sorted : read_net a_host (bytes "interfaces" ∷ []) ≡ some (bytes "eth0\nlo\n")
unfolding read_net read_entry read_interfaces sort str_le contains str_eq join
interfaces_sorted = refl
