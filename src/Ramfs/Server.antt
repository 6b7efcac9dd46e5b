-- ===== src/Ramfs/Server.antt =====
-- libs/planten_fs_ramfs/src/server.rs: the state of a connection and the helpers of its handlers. The
-- handlers and the loop that calls them are in the children.
pub mod Resolve
pub mod State
pub mod Handlers
pub mod Files
pub mod Dispatch
pub mod Absolute
pub mod Step
pub mod Refines
pub mod Changes
pub mod Reads
pub mod Contract
pub mod Shape
pub mod Total
pub mod Panics
pub mod Safe
pub mod Requests
pub mod ReadBack
pub mod Overflow
pub mod Names
pub mod Walk
pub mod Threads
pub mod Examples
