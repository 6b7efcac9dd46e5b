-- ===== src/Net.antt =====
-- `NetFs` of libs/planten_fs_net/src/lib.rs, and its server. What the host shows in /sys/class/net and
-- /proc/net is a parameter.
use planten.Base.{ℕ, Bool, Option, none, some, if◌then◌else◌, bit_or}
use planten.Base.{List, [], ◌∷◌, ◌++◌, Str, bytes, str_eq, contains, join}
use planten.Fs.Inode.{Inode, node, new, dmdir}
use planten.Fs.FilePath.{components}
use planten.Ramfs.Tree.{with_contents}
use planten.Ramfs.Sort.{sort}
use planten.Served.View.{FsView}
use planten.Served.Loop.{Session}
use planten.Served.Plain.{PlainFids, plain_client}
pub mod Entries
mod Examples

abbrev pub net_entries : List Str
net_entries = bytes "interfaces" ∷ bytes "tcp" ∷ bytes "udp" ∷ []

-- The names in /sys/class/net, if it can be read, and the contents of the files of /proc/net.
pub record NetHost : Type 0 where
  pub interfaces : Option (List Str)
  pub proc_file : Str → Option Str

unfoldable pub read_interfaces : NetHost → Option Str
read_interfaces host = elim host.interfaces [
  | none ↦ none
  | some names ↦ some (join (bytes "\n") (sort names) ++ bytes "\n")
]

unfoldable pub read_entry : NetHost → Str → Option Str
read_entry host name =
    if str_eq name (bytes "interfaces")
    then read_interfaces host
    else if str_eq name (bytes "tcp")
    then host.proc_file name
    else if str_eq name (bytes "udp")
    then host.proc_file name
    else none

unfoldable pub make_inode : ℕ → Str → Str → Inode
make_inode now name bs = with_contents bs (new now name 0o444 (bytes "root") (bytes "root"))

unfoldable pub walk_net : List Str → Option (List Str)
walk_net [] = some net_entries
walk_net (name ∷ []) = if contains net_entries name then some [] else none
walk_net (a ∷ b ∷ names) = none

unfoldable pub open_net : List Str → Option (Unit {0})
open_net [] = some tt
open_net (name ∷ []) = if contains net_entries name then some tt else none
open_net (a ∷ b ∷ names) = none

unfoldable pub read_net : NetHost → List Str → Option Str
read_net host [] = some (join (bytes "\n") net_entries)
read_net host (name ∷ []) = if contains net_entries name then read_entry host name else none
read_net host (a ∷ b ∷ names) = none

-- `inode.atime = now; inode.mtime = now;`
unfoldable pub timed_at : ℕ → Inode → Inode
timed_at now (node a cs) = node (record a { atime = now; mtime = now }) cs

-- The methods read the clock of `make_inode` and `Inode::new` again, and then overwrite it by `now`.
unfoldable pub stat_net : ℕ → NetHost → List Str → Option Inode
stat_net now host [] =
    some (timed_at now (new now (bytes "net") (bit_or 0o555 dmdir) (bytes "root") (bytes "root")))
stat_net now host (name ∷ []) =
    if contains net_entries name
    then (elim (read_entry host name) [
      | none ↦ none
      | some bs ↦ some (timed_at now (make_inode now name bs))
    ])
    else none
stat_net now host (a ∷ b ∷ names) = none

-- The methods on paths; `clunk` succeeds, `write`, `remove` and `wstat` fail.
unfoldable pub net_view : ℕ → NetHost → FsView
net_view now host = record {
  stat = λ path. stat_net now host (components path);
  read = λ path. read_net host (components path);
}

-- `handle_client` of libs/planten_fs_net/src/server.rs, on the clock and the host of each message.
unfoldable pub net_client : (ℕ → ℕ) → (ℕ → NetHost) → Bool → Str → Session PlainFids
net_client now host checks input =
    plain_client (bytes "net") (λ n. net_view (now n) (host n)) checks input
