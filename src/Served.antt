-- ===== src/Served.antt =====
-- What the 9P servers of procfs, srvfs, devfs and netfs share: libs/planten_fs_proc/src/server.rs and
-- libs/planten_fs_srv/src/server.rs have one text (Opening), libs/planten_fs_dev/src/server.rs and
-- libs/planten_fs_net/src/server.rs another (Plain). The file system behind a server is a parameter.
pub mod View
pub mod Loop
pub mod Opening
pub mod Plain
pub mod Walks
pub mod PlainWalks
pub mod Panics
pub mod ReadPanics
pub mod PlainPanics
pub mod Slices
mod Examples
