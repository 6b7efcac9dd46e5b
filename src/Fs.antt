-- ===== src/Fs.antt =====
-- libs/planten_fs_core/src/lib.rs: the inodes that every file system returns, and the paths by which
-- they are found. `Vec` contents are `contents` here; the map of children is a data type of its own.
pub mod Inode
pub mod Children
pub mod FilePath
