-- ===== src/Srv.antt =====
-- `SrvFs` of libs/planten_fs_srv/src/lib.rs, and its server. The directory of services on the host is a
-- parameter.
use planten.Base.{ℕ, ◌%◌, ◌^◌, Bool, Option, none, some, if◌then◌else◌, bit_or}
use planten.Base.{List, [], ◌∷◌, ◌++◌, Str, bytes, length, contains, join}
use planten.Fs.Inode.{Inode, new, dmdir}
use planten.Fs.FilePath.{components}
use planten.Ramfs.Tree.{with_contents}
use planten.Net.{timed_at}
use planten.Served.View.{FsView}
use planten.Served.Loop.{Session}
use planten.Served.Opening.{Fids, opening_client}
pub mod Services
mod Examples

abbrev pub service_files : List Str
service_files = bytes "ctl" ∷ []

-- What stands at `<root>/<service>/ctl`.
pub data CtlFile : Type 0 where
  missing unreadable : CtlFile
  holds : Str → CtlFile

-- The entries of the root that can be read, each with whether it is a directory, and the `ctl` files.
pub record SrvHost : Type 0 where
  pub read_dir : Option (List (Str × Bool))
  pub ctl : Str → CtlFile

unfoldable pub directories : List (Str × Bool) → List Str
directories [] = []
directories ((name, is_dir) ∷ entries) =
    let rest = directories entries in if is_dir then name ∷ rest else rest

unfoldable pub list_services : SrvHost → List Str
list_services host = elim host.read_dir [ none ↦ [] | some entries ↦ directories entries ]

unfoldable pub read_service_ctls : SrvHost → Str → Option Str
read_service_ctls host name = elim (host.ctl name) [
  | missing ↦ some (bytes "service " ++ (name ++ bytes " ctl\n"))
  | unreadable ↦ none
  | holds bs ↦ some bs
]

unfoldable pub walk_srv : SrvHost → List Str → Option (List Str)
walk_srv host [] = some (list_services host)
walk_srv host (service ∷ []) =
    if contains (list_services host) service then some service_files else none
walk_srv host (service ∷ file ∷ names) = none

unfoldable pub open_srv : SrvHost → List Str → Option (Unit {0})
open_srv host [] = some tt
open_srv host (service ∷ []) = if contains (list_services host) service then some tt else none
open_srv host (service ∷ file ∷ []) = if contains service_files file then some tt else none
open_srv host (service ∷ file ∷ name ∷ names) = none

unfoldable pub read_srv : SrvHost → List Str → Option Str
read_srv host [] = some (join (bytes "\n") (list_services host))
read_srv host (service ∷ []) =
    if contains (list_services host) service then some (join (bytes "\n") service_files) else none
read_srv host (service ∷ file ∷ []) =
    if contains service_files file then read_service_ctls host service else none
read_srv host (service ∷ file ∷ name ∷ names) = none

unfoldable pub write_srv : List Str → Str → Option ℕ
write_srv [] bs = none
write_srv (service ∷ []) bs = none
write_srv (service ∷ file ∷ []) bs =
    if contains service_files file then some (length bs % 2 ^ 32) else none
write_srv (service ∷ file ∷ name ∷ names) bs = none

abbrev srv_dir : ℕ → Str → Inode
srv_dir now name = timed_at now (new now name (bit_or 0o555 dmdir) (bytes "root") (bytes "root"))

unfoldable pub stat_srv : ℕ → SrvHost → List Str → Option Inode
stat_srv now host [] = some (srv_dir now (bytes "srv"))
stat_srv now host (service ∷ []) =
    if contains (list_services host) service then some (srv_dir now service) else none
stat_srv now host (service ∷ file ∷ []) =
    if contains service_files file
    then (elim (read_srv host (service ∷ file ∷ [])) [
      | none ↦ none
      | some bs ↦
          some (timed_at now (with_contents bs (new now file 0o444 (bytes "root") (bytes "root"))))
    ])
    else none
stat_srv now host (service ∷ file ∷ name ∷ names) = none

-- The methods on paths; `clunk` succeeds, `remove` and `wstat` fail.
unfoldable pub srv_view : ℕ → SrvHost → FsView
srv_view now host = record {
  stat = λ path. stat_srv now host (components path);
  read = λ path. read_srv host (components path);
}

-- `handle_client` of libs/planten_fs_srv/src/server.rs, on the clock and the host of each message.
unfoldable pub srv_client : (ℕ → ℕ) → (ℕ → SrvHost) → Bool → Str → Session Fids
srv_client now host checks input = opening_client (λ n. srv_view (now n) (host n)) checks input
