-- ===== src/Proc.antt =====
-- procfs: the file system of libs/planten_fs_proc/src/fs.rs, and `handle_client` of
-- libs/planten_fs_proc/src/server.rs. The processes of the host are a parameter.
use planten.Base.{ℕ, Bool, Str}
use planten.Served.View.{FsView}
use planten.Served.Loop.{Session}
use planten.Served.Opening.{Fids, opening_client}
use planten.Proc.Host.{ProcHost}
use planten.Proc.Methods.{proc_view}
pub mod Host
pub mod Files
pub mod Methods
pub mod Agree
pub mod Listed
pub mod Contents
mod Examples

unfoldable pub proc_client : (ℕ → FsView) → Bool → Str → Session Fids
proc_client views checks input = opening_client views checks input

-- The server of procfs on the clock and the processes of each message.
unfoldable pub procfs_client : (ℕ → ℕ) → (ℕ → ProcHost) → Bool → Str → Session Fids
procfs_client now host checks input = proc_client (λ n. proc_view (now n) (host n)) checks input
