-- ===== src/Lib.antt =====
-- planten: a user-space Plan 9. Its crates speak 9P: libs/planten_9p holds the messages and a client,
-- libs/planten_fs_core the inode and the trait of file systems, libs/planten_fs_ramfs a file system in
-- memory with a 9P server over it, libs/planten_fs_proc, _net, _dev and _srv file systems that show the
-- host, each with a server, and libs/planten_ns the table of mounts that the tools of
-- userspace/planten_coreutils change.
--
-- Which file models which part:
--   Base      numbers, lists, texts as bytes, `Res` for `io::Result` with panics, association lists for
--             `HashMap<u32, V>`.
--   Wire      libs/planten_9p/src. Messages: messages.rs. Types: RawMessage, Qid, Stat. Encode and Decode:
--             the functions of those names. Frame: build_frame, RawMessage::read_from and from_bytes. A
--             reader or a cursor is the list of the bytes that are still to come.
--   Fs        libs/planten_fs_core/src/lib.rs (Inode), the children of an inode as an association list,
--             and the components of a path, which every file system takes apart in the same way.
--   Ramfs     libs/planten_fs_ramfs/src/lib.rs. Tree: RamFs and its operations, a loop over the components
--             of a path as a recursion on them. Bytes: what `write` does to the contents. Wstat:
--             wstat_from_stat. Sort: the sort of list_dir. Trait: the other methods of FsServer. WellFormed and
--             Shape: the shape of a tree.
--   Ramfs/Server   libs/planten_fs_ramfs/src/server.rs. State: FidState, replies, conversions. Resolve:
--             resolve_step. Handlers and Files: the handle_* functions, each from the bytes of its body to
--             a reply and the state afterwards. Dispatch: the loop handle_client. Step: what a message may
--             do to the state of a connection on a message and its reply, as a relation; Contract: the loop against it. Threads: run_server,
--             with the turns of several connections in any order.
--   Ns        libs/planten_ns/src/lib.rs: the entries, the plan that joins adjacent unions, and the entries
--             that are always there. Ns/Storage: save_to_storage and load_from_storage, with the paths and
--             the files that they use as the record `Disk`.
--   Served    what the servers of the other file systems share. Opening: libs/planten_fs_srv/src/server.rs
--             and libs/planten_fs_proc/src/server.rs, which have one text. Plain: the like for
--             libs/planten_fs_dev/src/server.rs and libs/planten_fs_net/src/server.rs. View: the trait
--             FsServer as they call it, and the steps that all four take. Loop: handle_client's loop.
--   Dev, Net, Srv   DevFs, NetFs and SrvFs of the lib.rs of libs/planten_fs_dev, planten_fs_net and
--             planten_fs_srv, with their connections.
--   Proc      libs/planten_fs_proc/src. Host: what sysinfo shows of the processes at one moment. Files: the
--             tables of entries and the text of each file. Methods: ProcFs as an FsServer; a method that
--             refreshes the processes more than once takes a snapshot for each. Proc: the connections.
--   Client    P9Client of libs/planten_9p/src/lib.rs: send_and_wait, the operations, and the client with
--             the server of Ramfs/Server at the other end of its stream. Session: the like with the servers
--             of Served. Programs: tools/plan9_qemu_client and tests/proc_client.
--   Tools     userspace/planten_coreutils/src/bin. Commands: bind.rs, mount.rs and nsctl.rs. The rest is
--             10_ns.rs. Args: the flags; Shell: the commands of its shell; Start: main; Mounts: what the
--             child asks of the host, as a list of events; Probe: probe_remote_share, over the client;
--             Address: parse_9p_addr. A text is the list of the code points of its characters here, but in
--             Probe, whose path is sent, that of its bytes. Shared: the probe with the server of
--             Ramfs/Server.
--   Capture   the recorders of tools/capture_golden, _procfs, _srvfs, _devfs and _netfs, with the requests
--             of each.
--   Kernel    kernel/planten_kernel/src. Vga: vga_buffer.rs, in which an index out of bounds is a panic;
--             Page: the lines of text that a screen shows, which does not know of cells.
--
-- How a handler can end is its result: a reply with the next state, an error that closes the connection,
-- or a panic. A number is unbounded where the code cannot make it wrap; a conversion `as u16` or `as u32`
-- is a remainder, and the addition of `usize`, of 64 bits, panics or wraps by the parameter `checks`, the
-- build's overflow checks. A vector holds fewer than 2 ^ 63 bytes. A slice out of range and the length of a
-- body below that of its header are panics. The sum in build_frame wraps, as without overflow checks: with
-- them it panics for a body of 2 ^ 32 - 7 bytes or more, so that what is said of the panics of handlers is
-- said of what they do before their reply is framed.
-- The loops over messages run on fuel, one more than the length of the input. That is enough because a
-- message takes seven bytes at least.
--
-- Parameters: `answer` for the other end of a client's stream, `hash` for the DefaultHasher of a qid,
-- `text` for the text of an I/O error, `now` for the clock, `checks` for the build, `Json` for serde_json,
-- `Disk` for the file of the namespace, `status` for a command that the shell runs, `Host` for what unshare,
-- mount, tempdir and the file system answer to 10_ns, and what the host shows in its files (`NetHost`,
-- `SrvHost`, `ProcHost`, the random bytes of devfs), which is taken not to change while one message is
-- handled.
--
-- Not modelled: sockets and failures of writing to the stream or to the files of a capture (a connection is
-- modelled from its input to its output); threads, but for those of Ramfs/Server/Threads, where a panic that
-- poisons the mutex ends the run; the servers that 10_ns starts; the texts of error messages of the tools;
-- the lock of the text buffer and the panic handler of the kernel; printing.
pub mod Base
pub mod Wire
pub mod Fs
pub mod Ramfs
pub mod Ns
pub mod Kernel
pub mod Served
pub mod Dev
pub mod Net
pub mod Tools
pub mod Capture
pub mod Srv
pub mod Proc
pub mod Client
