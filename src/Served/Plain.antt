-- ===== src/Served/Plain.antt =====
-- `handle_client` of libs/planten_fs_dev/src/server.rs and libs/planten_fs_net/src/server.rs, which differ in
-- the name of the root.
use planten.Base.{
  ℕ, ◌%◌, ◌^◌, Bool, Option, none, some, Res, ok, ◌>>=◌, if◌then◌else◌, ◌==◌, bit_or,
}
use planten.Base.{List, [], ◌++◌, Str, bytes, length, get_last?, lookup, insert, remove}
use planten.Wire.Bytes.{le_bytes}
use planten.Wire.Types.{RawMessage, Qid, Stat}
use planten.Wire.Encode.{encode_qid_bytes, encode_stat_payload}
use planten.Wire.Decode.{decode_u16, decode_u32, decode_u64, decode_string}
use planten.Wire.Messages.{tversion, tattach, twalk, topen, tread, tstat, tclunk}
use planten.Wire.Messages.{rversion, rattach, rwalk, ropen, rread, rstat, rclunk}
use planten.Fs.Inode.{Inode, attrs, name, contents, dmdir, new}
use planten.Ramfs.Server.State.{Reply}
use planten.Ramfs.Server.Handlers.{concat_qids}
use planten.Served.View.{
  FsView, max_msg_size, reply, error_reply, negotiate, dir_qid, read_names, walk_path,
}
use planten.Served.View.{read_slice, read_body_of}
use planten.Served.Loop.{Session, serve_stream}

pub record PlainFid : Type 0 where
  pub path : Str
  pub qid : Qid

abbrev pub PlainFids : Type 0
PlainFids = List (ℕ × PlainFid)

unfoldable pub root_inode : Str → ℕ → Inode
root_inode root now = new now root (bit_or 0o555 dmdir) (bytes "root") (bytes "root")

-- The time of the root's inode does not reach its qid.
unfoldable pub root_qid : Str → Qid
root_qid root = dir_qid (root_inode root 0)

unfoldable pub build_stat : Inode → Stat
build_stat inode = record {
  type_ = 0;
  dev = 0;
  qid = dir_qid inode;
  mode = (attrs inode).mode;
  atime = (attrs inode).atime;
  mtime = (attrs inode).mtime;
  length = length (contents inode);
  name = name inode;
  uid = (attrs inode).uid;
  gid = (attrs inode).gid;
  muid = (attrs inode).uid;
}

unfoldable pub plain_version : Str → PlainFids → Res (Reply × PlainFids)
plain_version body fids = do
  (msize, cursor) ← decode_u32 body
  (version, cursor) ← decode_string cursor
  ok (reply rversion (negotiate msize version), fids)

unfoldable pub plain_attach : Str → Str → PlainFids → Res (Reply × PlainFids)
plain_attach root body fids = do
  (fid, cursor) ← decode_u32 body
  (_, cursor) ← decode_u32 cursor
  (_, cursor) ← decode_string cursor
  (_, cursor) ← decode_string cursor
  let qid = root_qid root
  ok (
    reply rattach (encode_qid_bytes qid),
    insert fid (record { path = bytes "/"; qid = qid }) fids,
  )

abbrev pub or_root_qid : Str → Option Qid → Qid
or_root_qid root none = root_qid root
or_root_qid root (some q) = q

-- `.unwrap_or_else(|| "/".to_string())`: an unknown fid walks from the root.
abbrev pub path_or_root : Option PlainFid → Str
path_or_root none = bytes "/"
path_or_root (some state) = state.path

unfoldable pub plain_walked : Str → ℕ → Option (Str × List Qid) → PlainFids → Reply × PlainFids
plain_walked root newfid none fids = (error_reply (bytes "walk failed"), fids)
plain_walked root newfid (some (path, qids)) fids = (
  reply rwalk (le_bytes 2 (length qids % 2 ^ 16) ++ concat_qids qids),
  insert newfid (record { path = path; qid = or_root_qid root (get_last? qids) }) fids,
)

unfoldable pub plain_walk : Str → FsView → Str → PlainFids → Res (Reply × PlainFids)
plain_walk root v body fids = do
  (fid, cursor) ← decode_u32 body
  (newfid, cursor) ← decode_u32 cursor
  (nwname, cursor) ← decode_u16 cursor
  (names, cursor) ← read_names nwname cursor
  ok (plain_walked root newfid (walk_path v (path_or_root (lookup fid fids)) names) fids)

unfoldable pub plain_read_found : Bool → ℕ → ℕ → Option Str → PlainFids → Res (Reply × PlainFids)
plain_read_found checks offset count none fids = ok (error_reply (bytes "read failed"), fids)
plain_read_found checks offset count (some bs) fids = do
  slice ← read_slice checks offset count bs
  ok (reply rread (read_body_of slice), fids)

unfoldable pub plain_read_known :
    FsView → Bool → ℕ → ℕ → Option PlainFid → PlainFids → Res (Reply × PlainFids)
plain_read_known v checks offset count none fids = ok (error_reply (bytes "fid not found"), fids)
plain_read_known v checks offset count (some state) fids =
    plain_read_found checks offset count (v.read state.path) fids

unfoldable pub plain_read : FsView → Bool → Str → PlainFids → Res (Reply × PlainFids)
plain_read v checks body fids = do
  (fid, cursor) ← decode_u32 body
  (offset, cursor) ← decode_u64 cursor
  (count, cursor) ← decode_u32 cursor
  plain_read_known v checks offset count (lookup fid fids) fids

unfoldable pub plain_open_known : Option PlainFid → Reply
plain_open_known none = error_reply (bytes "fid not known")
plain_open_known (some state) = reply ropen (encode_qid_bytes state.qid ++ le_bytes 4 max_msg_size)

unfoldable pub plain_open : Str → PlainFids → Res (Reply × PlainFids)
plain_open body fids = do
  (fid, cursor) ← decode_u32 body
  ok (plain_open_known (lookup fid fids), fids)

unfoldable pub plain_stat_found : Option Inode → Reply
plain_stat_found none = error_reply (bytes "stat failed")
plain_stat_found (some inode) = reply rstat (encode_stat_payload (build_stat inode))

unfoldable pub plain_stat_known : FsView → Option PlainFid → Reply
plain_stat_known v none = error_reply (bytes "fid not found")
plain_stat_known v (some state) = plain_stat_found (v.stat state.path)

unfoldable pub plain_stat : FsView → Str → PlainFids → Res (Reply × PlainFids)
plain_stat v body fids = do
  (fid, cursor) ← decode_u32 body
  ok (plain_stat_known v (lookup fid fids), fids)

unfoldable pub plain_clunk : Str → PlainFids → Res (Reply × PlainFids)
plain_clunk body fids = do (fid, cursor) ← decode_u32 body; ok (reply rclunk [], remove fid fids)

unfoldable pub plain_answer : Str → FsView → Bool → RawMessage → PlainFids → Res (Reply × PlainFids)
plain_answer root v checks m fids =
    if m.msg_type == tversion
    then plain_version m.body fids
    else if m.msg_type == tattach
    then plain_attach root m.body fids
    else if m.msg_type == twalk
    then plain_walk root v m.body fids
    else if m.msg_type == tread
    then plain_read v checks m.body fids
    else if m.msg_type == topen
    then plain_open m.body fids
    else if m.msg_type == tstat
    then plain_stat v m.body fids
    else if m.msg_type == tclunk
    then plain_clunk m.body fids
    else ok (error_reply (bytes "unsupported operation"), fids)

-- `views n` is what the file system shows while the message before the last `n` of fuel is handled.
unfoldable pub plain_client : Str → (ℕ → FsView) → Bool → Str → Session PlainFids
plain_client root views checks input =
    serve_stream (λ n m fids. plain_answer root (views n) checks m fids) input []
