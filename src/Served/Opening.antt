-- ===== src/Served/Opening.antt =====
-- `handle_client` of libs/planten_fs_srv/src/server.rs and libs/planten_fs_proc/src/server.rs.
use planten.Base.{
  ℕ, ◌%◌, ◌^◌, Bool, Option, none, some, Res, ok, ◌>>=◌, if◌then◌else◌, ◌==◌, unwrap,
}
use planten.Base.{List, [], ◌++◌, Str, bytes, length, get_elem?, get_last?, lookup, insert, remove}
use planten.Wire.Bytes.{le_bytes}
use planten.Wire.Types.{RawMessage, Qid, Stat}
use planten.Wire.Encode.{encode_qid_bytes, encode_stat_payload}
use planten.Wire.Decode.{decode_u16, decode_u32, decode_u64, decode_string}
use planten.Wire.Messages.{tversion, tattach, twalk, topen, tread, tstat, tclunk}
use planten.Wire.Messages.{rversion, rattach, rwalk, ropen, rread, rstat, rclunk}
use planten.Fs.Inode.{Inode, attrs, name, contents}
use planten.Ramfs.Server.State.{FidState, new_fid, Reply}
use planten.Ramfs.Server.Handlers.{concat_qids}
use planten.Served.View.{
  FsView, max_msg_size, reply, error_reply, negotiate, read_names, walk_path, read_slice,
}
use planten.Served.View.{read_body_of}
use planten.Served.Loop.{Session, serve_stream}

abbrev pub Fids : Type 0
Fids = List (ℕ × FidState)

-- `qtype: 0x00, version: 0, path: 0`, which both a root and a walk without names get.
abbrev pub zero_qid : Qid
zero_qid = record { qtype = 0x00; version = 0; path = 0 }

unfoldable pub version_reply : Str → Fids → Res (Reply × Fids)
version_reply body fids = do
  (msize, cursor) ← decode_u32 body
  (version, cursor) ← decode_string cursor
  ok (reply rversion (negotiate msize version), fids)

unfoldable pub attach_reply : Str → Fids → Res (Reply × Fids)
attach_reply body fids = do
  (fid, cursor) ← decode_u32 body
  (_, cursor) ← decode_u32 cursor
  (_, cursor) ← decode_string cursor
  (_, cursor) ← decode_string cursor
  ok (reply rattach (encode_qid_bytes zero_qid), insert fid (new_fid (bytes "/") zero_qid) fids)

abbrev pub or_zero_qid : Option Qid → Qid
or_zero_qid none = zero_qid
or_zero_qid (some q) = q

-- `fids.get(&fid).map(|f| f.path.clone()).unwrap_or_default()`: an unknown fid walks from the empty path.
abbrev pub path_or_empty : Option FidState → Str
path_or_empty none = []
path_or_empty (some state) = state.path

unfoldable pub walked : ℕ → Option (Str × List Qid) → Fids → Reply × Fids
walked newfid none fids = (error_reply (bytes "file not found"), fids)
walked newfid (some (path, qids)) fids = (
  reply rwalk (le_bytes 2 (length qids % 2 ^ 16) ++ concat_qids qids),
  insert newfid (new_fid path (or_zero_qid (get_last? qids))) fids,
)

unfoldable pub walk_reply : FsView → Str → Fids → Res (Reply × Fids)
walk_reply v body fids = do
  (fid, cursor) ← decode_u32 body
  (newfid, cursor) ← decode_u32 cursor
  (nwnames, cursor) ← decode_u16 cursor
  (names, cursor) ← read_names nwnames cursor
  ok (walked newfid (walk_path v (path_or_empty (lookup fid fids)) names) fids)

unfoldable pub open_found : ℕ → ℕ → FidState → Option Inode → Fids → Reply × Fids
open_found fid mode state none fids = (error_reply (bytes "file not found"), fids)
open_found fid mode state (some inode) fids = (
  reply ropen (encode_qid_bytes state.qid ++ le_bytes 4 max_msg_size),
  insert fid (record state { open_mode = some mode }) fids,
)

unfoldable pub open_known : FsView → ℕ → ℕ → Option FidState → Fids → Reply × Fids
open_known v fid mode none fids = (error_reply (bytes "fid not found"), fids)
open_known v fid mode (some state) fids = open_found fid mode state (v.stat state.path) fids

-- `raw_message.body[4]` panics on a body of four bytes.
unfoldable pub open_reply : FsView → Str → Fids → Res (Reply × Fids)
open_reply v body fids = do
  (fid, cursor) ← decode_u32 body
  mode ← unwrap (get_elem? body 4)
  ok (open_known v fid mode (lookup fid fids) fids)

unfoldable pub read_found : Bool → ℕ → ℕ → Option Str → Fids → Res (Reply × Fids)
read_found checks offset count none fids = ok (error_reply (bytes "read failed"), fids)
read_found checks offset count (some bs) fids = do
  slice ← read_slice checks offset count bs
  ok (reply rread (read_body_of slice), fids)

unfoldable pub read_known : FsView → Bool → ℕ → ℕ → Option FidState → Fids → Res (Reply × Fids)
read_known v checks offset count none fids = ok (error_reply (bytes "fid not found"), fids)
read_known v checks offset count (some state) fids =
    read_found checks offset count (v.read state.path) fids

unfoldable pub read_reply : FsView → Bool → Str → Fids → Res (Reply × Fids)
read_reply v checks body fids = do
  (fid, cursor) ← decode_u32 body
  (offset, cursor) ← decode_u64 cursor
  (count, cursor) ← decode_u32 cursor
  read_known v checks offset count (lookup fid fids) fids

unfoldable pub stat_of_fid : Qid → Inode → Stat
stat_of_fid qid inode = record {
  type_ = 0;
  dev = 0;
  qid = qid;
  mode = (attrs inode).mode;
  atime = (attrs inode).atime;
  mtime = (attrs inode).mtime;
  length = length (contents inode);
  name = name inode;
  uid = (attrs inode).uid;
  gid = (attrs inode).gid;
  muid = bytes "none";
}

unfoldable pub stat_found : Qid → Option Inode → Reply
stat_found qid none = error_reply (bytes "stat failed")
stat_found qid (some inode) = reply rstat (encode_stat_payload (stat_of_fid qid inode))

unfoldable pub stat_known : FsView → Option FidState → Reply
stat_known v none = error_reply (bytes "fid not found")
stat_known v (some state) = stat_found state.qid (v.stat state.path)

unfoldable pub stat_reply : FsView → Str → Fids → Res (Reply × Fids)
stat_reply v body fids = do
  (fid, cursor) ← decode_u32 body
  ok (stat_known v (lookup fid fids), fids)

unfoldable pub clunk_reply : Str → Fids → Res (Reply × Fids)
clunk_reply body fids = do (fid, cursor) ← decode_u32 body; ok (reply rclunk [], remove fid fids)

unfoldable pub answer : FsView → Bool → RawMessage → Fids → Res (Reply × Fids)
answer v checks m fids =
    if m.msg_type == tversion
    then version_reply m.body fids
    else if m.msg_type == tattach
    then attach_reply m.body fids
    else if m.msg_type == twalk
    then walk_reply v m.body fids
    else if m.msg_type == topen
    then open_reply v m.body fids
    else if m.msg_type == tread
    then read_reply v checks m.body fids
    else if m.msg_type == tstat
    then stat_reply v m.body fids
    else if m.msg_type == tclunk
    then clunk_reply m.body fids
    else ok (error_reply (bytes "unhandled message type"), fids)

-- `views n` is what the file system shows while the message before the last `n` of fuel is handled.
unfoldable pub opening_client : (ℕ → FsView) → Bool → Str → Session Fids
opening_client views checks input =
    serve_stream (λ n m fids. answer (views n) checks m fids) input []
