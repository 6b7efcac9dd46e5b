-- ===== src/Ramfs/Server/State.antt =====
-- The state of a connection, the replies, and the conversions of libs/planten_fs_ramfs/src/server.rs.
-- `hash path mtime` is what `DefaultHasher` makes of a path and a time.
use planten.Base.{ℕ, ◌%◌, ◌^◌, Bool, not, ◌||◌, ◌==◌, Option, none, bit_and}
use planten.Base.{Res, ok, ◌>>=◌, if◌then◌else◌, List, ◌++◌, Str, length}
use planten.Wire.Bytes.{le_bytes, from_le_bytes, read_exact}
use planten.Wire.Types.{Qid, Stat}
use planten.Wire.Decode.{decode_u16, decode_u32, decode_u64, decode_string}
use planten.Wire.Messages.{rerror}
use planten.Fs.Inode.{Inode, attrs, name, contents, dmdir}
use planten.Ramfs.Tree.{RamFs}

pub record FidState : Type 0 where
  pub path : Str
  pub qid : Qid
  pub open_mode : Option ℕ

-- `FidState::new`
abbrev pub new_fid : Str → Qid → FidState
new_fid path qid = record { path = path; qid = qid; open_mode = none }

-- The fids of one connection, and the file system that all connections share.
pub record Server : Type 0 where
  pub fid_states : List (ℕ × FidState)
  pub ramfs : RamFs

-- The type and the body that `send_response` frames.
pub record Reply : Type 0 where
  pub msg_type : ℕ
  pub body : Str

-- A handler ends with a reply, with an error that closes the connection, or with a panic.
abbrev pub Handled : Type 0
Handled = Res (Reply × Server)

abbrev pub respond : ℕ → Str → Server → Handled
respond msg_type body s = ok (record { msg_type = msg_type; body = body }, s)

unfoldable pub encode_error : Str → Str
encode_error message = le_bytes 2 (length message % 2 ^ 16) ++ message

abbrev pub send_error : Str → Server → Handled
send_error message s = respond rerror (encode_error message) s

unfoldable pub build_version_body : ℕ → Str → Str
build_version_body msize version =
    le_bytes 4 msize ++ (le_bytes 2 (length version % 2 ^ 16) ++ version)

-- `mode & 0x80000000 != 0`
abbrev pub is_dir_mode : ℕ → Bool
is_dir_mode mode = not (bit_and mode dmdir == 0)

unfoldable pub qid_from_inode : (Str → ℕ → ℕ) → Str → Inode → Qid
qid_from_inode hash path inode = record {
  qtype = if is_dir_mode (attrs inode).mode then 0x80 else 0x00;
  version = (attrs inode).mtime;
  path = hash path (attrs inode).mtime;
}

unfoldable pub inode_to_stat : (Str → ℕ → ℕ) → Str → Inode → Stat
inode_to_stat hash path inode = record {
  type_ = 0;
  dev = 0;
  qid = qid_from_inode hash path inode;
  mode = (attrs inode).mode;
  atime = (attrs inode).atime;
  mtime = (attrs inode).mtime;
  length = length (contents inode);
  name = name inode;
  uid = (attrs inode).uid;
  gid = (attrs inode).gid;
  muid = (attrs inode).uid;
}

unfoldable pub mode_allows_read : ℕ → Bool
mode_allows_read mode = let typ = bit_and mode 0x3 in typ == 0 || (typ == 2 || typ == 3)

unfoldable pub mode_allows_write : ℕ → Bool
mode_allows_write mode =
    let typ = bit_and mode 0x3 in typ == 1 || (typ == 2 || not (bit_and mode 0x10 == 0))

unfoldable pub read_u8 : Str → Res (ℕ × Str)
read_u8 cursor = do (buf, rest) ← read_exact 1 cursor; ok (from_le_bytes buf, rest)

-- These have the bodies of the `decode_*` functions of libs/planten_9p/src/lib.rs.
abbrev pub read_u16 : Str → Res (ℕ × Str)
read_u16 = decode_u16

abbrev pub read_u32 : Str → Res (ℕ × Str)
read_u32 = decode_u32

abbrev pub read_u64 : Str → Res (ℕ × Str)
read_u64 = decode_u64

abbrev pub read_string : Str → Res (Str × Str)
read_string = decode_string
