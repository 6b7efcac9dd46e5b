-- ===== src/Ramfs/Server/Files.antt =====
-- The handlers of libs/planten_fs_ramfs/src/server.rs that read or change the file system: stat, read,
-- write, wstat, remove and create.
use planten.Base.{ℕ, ◌%◌, ◌^◌, Bool, Option, none, some, Res, ok, err, panic, ◌>>=◌}
use planten.Base.{if◌then◌else◌, is_some, List, [], ◌∷◌, ◌++◌, Str, bytes, length, lookup}
use planten.Base.{◌⊎◌, inl, inr, remove, unwrap, min, leb, ErrorKind}
use planten.Wire.Bytes.{le_bytes, read_exact}
use planten.Wire.Types.{Stat}
use planten.Wire.Encode.{encode_qid_bytes, encode_stat_payload}
use planten.Wire.Decode.{decode_stat}
use planten.Wire.Messages.{rstat, rread, rwrite, rwstat, rremove, rcreate}
use planten.Fs.Inode.{Inode, attrs}
use planten.Ramfs.Bytes.{add_usize, slice_of}
use planten.Ramfs.Tree.{
  RamFs, stat, read_file, list_dir, create_file, create_dir, write, remove_path,
}
use planten.Ramfs.Wstat.{wstat_from_stat}
use planten.Ramfs.Server.Resolve.{resolve_step}
use planten.Ramfs.Server.State.{FidState, Server, Handled, respond, send_error, is_dir_mode}
use planten.Ramfs.Server.State.{qid_from_inode, inode_to_stat, mode_allows_read, mode_allows_write}
use planten.Ramfs.Server.State.{read_u8, read_u32, read_u64, read_string}

abbrev pub or_zero : Option ℕ → ℕ
or_zero none = 0
or_zero (some n) = n

-- `Some` and `None` of a mutation, as replies.
abbrev pub outcome : ℕ → Str → Option (Unit {0}) → Server → Handled
outcome msg_type message none s = send_error message s
outcome msg_type message (some _) s = respond msg_type [] s

unfoldable pub remove_fid : ℕ → Option FidState → Server → Handled
remove_fid fid none s = send_error (bytes "unknown fid") s
remove_fid fid (some state) s = do
  (r, fs) ← remove_path state.path s.ramfs
  outcome rremove (bytes "remove failed") r
      (record { fid_states = remove fid s.fid_states; ramfs = fs })

unfoldable pub handle_remove : Str → Server → Handled
handle_remove body s = do (fid, cursor) ← read_u32 body; remove_fid fid (lookup fid s.fid_states) s

unfoldable pub set_stat : Str → Stat → Server → Handled
set_stat path st s = do
  (r, fs) ← wstat_from_stat path st s.ramfs
  outcome rwstat (bytes "wstat failed") r (record s { ramfs = fs })

-- A stat that cannot be decoded is answered, not passed on.
unfoldable pub wstat_decoded : (ErrorKind → Str) → Str → Res (Stat × Str) → Server → Handled
wstat_decoded text path (ok (st, cursor)) s = set_stat path st s
wstat_decoded text path (err e) s = send_error (bytes "invalid stat format: " ++ text e) s
wstat_decoded text path panic s = panic

unfoldable pub wstat_fid : (ErrorKind → Str) → Str → Option FidState → Server → Handled
wstat_fid text cursor none s = send_error (bytes "unknown fid") s
wstat_fid text cursor (some state) s = wstat_decoded text state.path (decode_stat cursor) s

unfoldable pub handle_wstat : (ErrorKind → Str) → Str → Server → Handled
handle_wstat text body s = do
  (fid, cursor) ← read_u32 body
  wstat_fid text cursor (lookup fid s.fid_states) s

-- The write itself, once the fid is known to be open for it.
unfoldable pub write_path : Bool → ℕ → Str → ℕ → Str → Server → Handled
write_path checks now path offset buffer s = do
  (r, fs) ← write checks now path offset buffer s.ramfs
  respond rwrite (le_bytes 4 (or_zero r)) (record s { ramfs = fs })

unfoldable pub write_opened : Bool → ℕ → Str → Option ℕ → ℕ → Str → Server → Handled
write_opened checks now path none offset buffer s = send_error (bytes "fid not open") s
write_opened checks now path (some mode) offset buffer s =
    if mode_allows_write mode
    then write_path checks now path offset buffer s
    else send_error (bytes "fid not open for write") s

unfoldable pub write_fid : Bool → ℕ → Option FidState → ℕ → Str → Server → Handled
write_fid checks now none offset buffer s = send_error (bytes "unknown fid") s
write_fid checks now (some state) offset buffer s =
    write_opened checks now state.path state.open_mode offset buffer s

unfoldable pub handle_write : Bool → ℕ → Str → Server → Handled
handle_write checks now body s = do
  (fid, cursor) ← read_u32 body
  (offset, cursor) ← read_u64 cursor
  (count, cursor) ← read_u32 cursor
  (buffer, cursor) ← read_exact count cursor
  write_fid checks now (lookup fid s.fid_states) offset buffer s

-- `data[start..min(start + count, data.len())]`, or nothing from the end on.
unfoldable pub chunk : ℕ → ℕ → Str → Res Str
chunk start end bs = if leb (length bs) start then ok [] else slice_of start end bs

unfoldable pub read_chunk : Bool → ℕ → ℕ → Str → Server → Handled
read_chunk checks offset count bs s = do
  sum ← add_usize checks offset count
  piece ← chunk offset (min sum (length bs)) bs
  respond rread (le_bytes 4 (length piece % 2 ^ 32) ++ piece) s

-- The file system with a new directory or an empty file at a path.
unfoldable pub made : (ℕ → ℕ) → ℕ → Str → RamFs → RamFs
made now perm path fs =
    if is_dir_mode perm then create_dir now path fs else create_file now path [] fs

module _ (hash : Str → ℕ → ℕ) where
  unfoldable pub stat_path : Str → Option Inode → Server → Handled
  stat_path path none s = send_error (bytes "file not found") s
  stat_path path (some inode) s =
      respond rstat (encode_stat_payload (inode_to_stat hash path inode)) s

  unfoldable pub stat_fid : Option FidState → Server → Handled
  stat_fid none s = send_error (bytes "unknown fid") s
  stat_fid (some state) s = stat_path state.path (stat state.path s.ramfs) s

  unfoldable pub handle_stat : Str → Server → Handled
  handle_stat body s = do (fid, cursor) ← read_u32 body; stat_fid (lookup fid s.fid_states) s

  -- What one entry adds to the bytes of a directory.
  unfoldable pub entry_bytes : RamFs → Option Str → Str
  entry_bytes fs none = []
  entry_bytes fs (some child_path) = elim (stat child_path fs) [
    | none ↦ []
    | some inode ↦ encode_stat_payload (inode_to_stat hash child_path inode)
  ]

  unfoldable pub dir_bytes : RamFs → Str → List Str → Str
  dir_bytes fs path [] = []
  dir_bytes fs path (entry ∷ entries) =
      entry_bytes fs (resolve_step path entry) ++ dir_bytes fs path entries

  unfoldable pub listing : RamFs → Str → Option (List Str) → Str
  listing fs path none = []
  listing fs path (some entries) = dir_bytes fs path entries

  -- The bytes that a read takes its chunk from, or the text of an error reply.
  unfoldable pub read_data : Str → RamFs → Option Inode → Str ⊎ Str
  read_data path fs none = inl (bytes "file not found")
  read_data path fs (some inode) =
      if is_dir_mode (attrs inode).mode
      then inr (listing fs path (list_dir path fs))
      else elim (read_file path fs) [
        | none ↦ inl (bytes "file missing during read")
        | some bs ↦ inr bs
      ]

  unfoldable pub read_path : Bool → Str → ℕ → ℕ → Server → Handled
  read_path checks path offset count s = elim (read_data path s.ramfs (stat path s.ramfs)) [
    | inl message ↦ send_error message s
    | inr bs ↦ read_chunk checks offset count bs s
  ]

  unfoldable pub read_opened : Bool → Str → Option ℕ → ℕ → ℕ → Server → Handled
  read_opened checks path none offset count s = send_error (bytes "fid not open") s
  read_opened checks path (some mode) offset count s =
      if mode_allows_read mode
      then read_path checks path offset count s
      else send_error (bytes "fid not open for read") s

  unfoldable pub read_fid : Bool → Option FidState → ℕ → ℕ → Server → Handled
  read_fid checks none offset count s = send_error (bytes "unknown fid") s
  read_fid checks (some state) offset count s =
      read_opened checks state.path state.open_mode offset count s

  unfoldable pub handle_read : Bool → Str → Server → Handled
  handle_read checks body s = do
    (fid, cursor) ← read_u32 body
    (offset, cursor) ← read_u64 cursor
    (count, cursor) ← read_u32 cursor
    read_fid checks (lookup fid s.fid_states) offset count s

  unfoldable pub create_new : (ℕ → ℕ) → ℕ → Str → Server → Handled
  create_new now perm path s = do
    let fs = made now perm path s.ramfs
    inode ← unwrap (stat path fs)
    respond rcreate (encode_qid_bytes (qid_from_inode hash path inode) ++ le_bytes 4 0)
        (record s { ramfs = fs })

  unfoldable pub create_at : (ℕ → ℕ) → ℕ → Option Str → Server → Handled
  create_at now perm none s = send_error (bytes "invalid target path") s
  create_at now perm (some path) s =
      if is_some (stat path s.ramfs)
      then send_error (bytes "file exists") s
      else create_new now perm path s

  unfoldable pub create_fid : (ℕ → ℕ) → ℕ → Str → Option FidState → Server → Handled
  create_fid now perm name none s = send_error (bytes "unknown fid") s
  create_fid now perm name (some state) s = create_at now perm (resolve_step state.path name) s

  unfoldable pub handle_create : (ℕ → ℕ) → Str → Server → Handled
  handle_create now body s = do
    (fid, cursor) ← read_u32 body
    (name, cursor) ← read_string cursor
    (perm, cursor) ← read_u32 cursor
    (mode, cursor) ← read_u8 cursor
    create_fid now perm name (lookup fid s.fid_states) s
