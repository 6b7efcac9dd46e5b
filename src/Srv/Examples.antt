-- ===== src/Srv/Examples.antt =====
-- The services of libs/planten_fs_srv/src/lib.rs at small inputs.
use planten.Base.{◌≡◌, true, false, ◌&&◌, some, is_some, [], ◌∷◌, bytes}
use planten.Srv.{SrvHost, missing, open_srv, read_srv, stat_srv}
use planten.Srv.Services.{ctl_readable, open_srv-agrees}

abbrev a_host : SrvHost
a_host = record {
  read_dir = some ((bytes "mail", true) ∷ (bytes "notes", false) ∷ []);
  ctl = λ name. missing;
}

open_srv-agrees_example :
    (is_some (stat_srv 7 a_host (bytes "mail" ∷ []))
      ≡ is_some (read_srv a_host (bytes "mail" ∷ [])))
    × (is_some (read_srv a_host (bytes "mail" ∷ [])) ≡ (
        is_some (open_srv a_host (bytes "mail" ∷ [])) && ctl_readable a_host (bytes "mail" ∷ [])))
open_srv-agrees_example = open_srv-agrees 7 a_host (bytes "mail" ∷ [])
