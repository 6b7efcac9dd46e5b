-- ===== src/Tools.antt =====
-- The command-line tools of userspace/planten_coreutils/src/bin. In them a `str` is the list of its
-- characters, by their code points, but that of its bytes where it is sent.
pub mod Text
pub mod Address
pub mod Args
pub mod Commands
pub mod Shell
pub mod Effects
pub mod Probe
pub mod Mounts
pub mod Executed
pub mod Sound
pub mod Shared
pub mod Start
mod Examples
