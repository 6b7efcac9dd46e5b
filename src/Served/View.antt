-- ===== src/Served/View.antt =====
-- The file system behind a server, through the methods of `FsServer` (libs/planten_fs_core/src/lib.rs) that
-- the servers call, and the steps that libs/planten_fs_srv/src/server.rs and
-- libs/planten_fs_dev/src/server.rs have in common. No message changes the file system, and what it shows
-- is taken not to change while one message is handled.
use planten.Base.{
  ℕ, zero, suc, ◌%◌, ◌^◌, min, Bool, Option, none, some, Res, ok, ◌>>=◌, if◌then◌else◌, ltb,
}
use planten.Base.{List, [], ◌∷◌, ◌++◌, Str, bytes, str_eq, length}
use planten.Wire.Bytes.{le_bytes}
use planten.Wire.Types.{Qid}
use planten.Wire.Encode.{encode_string}
use planten.Wire.Decode.{decode_string}
use planten.Wire.Messages.{rerror}
use planten.Fs.Inode.{Inode, attrs}
use planten.Ramfs.Bytes.{add_usize, slice_of}
use planten.Ramfs.Server.State.{Reply, is_dir_mode}
use planten.Ramfs.Server.Resolve.{child_path}

pub record FsView : Type 0 where
  pub stat : Str → Option Inode
  pub read : Str → Option Str

abbrev pub max_msg_size : ℕ
max_msg_size = 8192

abbrev pub version_string : Str
version_string = bytes "9P2000"

abbrev pub reply : ℕ → Str → Reply
reply msg_type body = record { msg_type = msg_type; body = body }

abbrev pub error_reply : Str → Reply
error_reply message = reply rerror (encode_string message)

-- The body of the reply to a version.
unfoldable pub negotiate : ℕ → Str → Str
negotiate msize version =
    le_bytes 4 (min msize max_msg_size)
    ++ encode_string (if str_eq version version_string then version_string else bytes "unknown")

-- `if current_path == "/" { format!("/{}", name) } else { format!("{}/{}", current_path, name) }`
abbrev pub resolve_path : Str → Str → Str
resolve_path base name = child_path base name

unfoldable pub dir_qid : Inode → Qid
dir_qid inode = record {
  qtype = if is_dir_mode (attrs inode).mode then 0x80 else 0x00;
  version = 0;
  path = 0;
}

-- `for _ in 0..nwnames { names.push(decode_string(&mut cursor)?) }`
unfoldable pub read_names : ℕ → Str → Res (List Str × Str)
read_names zero cursor = ok ([], cursor)
read_names (suc n) cursor = do
  (name, cursor) ← decode_string cursor
  (names, cursor) ← read_names n cursor
  ok (name ∷ names, cursor)

-- The loop over the names: where it ends and the qids on the way, or `none` at a name that is missing.
unfoldable pub walk_path : FsView → Str → List Str → Option (Str × List Qid)
walk_path v path [] = some (path, [])
walk_path v path (name ∷ names) = elim (v.stat (resolve_path path name)) [
  | none ↦ none
  | some inode ↦ elim (walk_path v (resolve_path path name) names) [
    | none ↦ none
    | some (end, qids) ↦ some (end, dir_qid inode ∷ qids)
  ]
]

-- `if start < end { &data[start..end] } else { &[] }`, with the end cut to the data; `offset + count` is an addition of `u64`.
unfoldable pub read_slice : Bool → ℕ → ℕ → Str → Res Str
read_slice checks offset count bs = do
  sum ← add_usize checks offset count
  let end = min sum (length bs)
  if ltb offset end then slice_of offset end bs else ok []

unfoldable pub read_body_of : Str → Str
read_body_of slice = le_bytes 4 (length slice % 2 ^ 32) ++ slice
