-- ===== src/Ramfs.antt =====
-- libs/planten_fs_ramfs/src: the in-memory file system and its 9P server. The children hold the
-- operations on the tree, the server, and the proofs about both.
pub mod Bytes
pub mod Sort
pub mod Tree
pub mod Wstat
pub mod Lookup
pub mod Update
pub mod Parent
pub mod Contents
pub mod Files
pub mod Listing
pub mod Trait
pub mod WellFormed
pub mod Shape
pub mod Removal
pub mod Rename
pub mod Server
pub mod Examples
