-- ===== src/Ramfs/Server/Step.antt =====
-- What a message may do to the state of a connection and be replied, as a relation: the contract of the handlers of
-- libs/planten_fs_ramfs/src/server.rs.
use planten.Base.{ℕ, ◌≡◌, arith, Bool, true, Option, none, some, Res, ok}
use planten.Base.{◌>>=◌, Str, lookup, insert, remove, lookup-insert, lookup-remove}
use planten.Base.{Returns, Returns-bind}
use planten.Base.{◌==◌, ◌||◌, bytes, refl}
use planten.Wire.Bytes.{read_exact}
use planten.Wire.Decode.{decode_stat}
use planten.Wire.Types.{Stat, RawMessage, Qid}
use planten.Wire.Messages.{
  rerror, tversion, tauth, tflush, tattach, twalk, tclone, topen, tread, twrite,
}
use planten.Wire.Messages.{
  tstat, tclunk, rread, rattach, rwalk, rclone, ropen, rclunk, rwrite, rcreate, twstat, tremove,
  tcreate,
}
use planten.Fs.Inode.{Inode}
use planten.Ramfs.Server.Resolve.{resolve_step}
use planten.Ramfs.Server.State.{new_fid, read_u8, read_u32, read_u64, read_string}
use planten.Ramfs.Tree.{RamFs, stat, write, remove_path}
use planten.Ramfs.Wstat.{wstat_from_stat}
use planten.Ramfs.Server.State.{
  FidState, Server, Reply, Handled, mode_allows_write, mode_allows_read,
}
use planten.Ramfs.Server.Files.{made}
use planten.Ramfs.Server.Absolute.{IsAbsolute, FidsAbsolute}

-- The fid is in use, and it is open in a mode that allows writing.
pub record OpenForWrite (s : Server) (fid : ℕ) (st : FidState) : Type 0 where
  pub mode : ℕ
  pub used : lookup fid s.fid_states ≡ some st
  pub opened : st.open_mode ≡ some mode
  pub allows : mode_allows_write mode ≡ true

-- The fid is in use, and it is open in a mode that allows reading.
pub record OpenForRead (s : Server) (fid : ℕ) (st : FidState) : Type 0 where
  pub mode : ℕ
  pub used : lookup fid s.fid_states ≡ some st
  pub opened : st.open_mode ≡ some mode
  pub allows : mode_allows_read mode ≡ true

-- The message is of this type, and its body begins with this fid.
pub record Asks (m : RawMessage) (t fid : ℕ) (rest : Str) : Type 0 where
  pub asked : m.msg_type ≡ t
  pub decoded : read_u32 m.body ≡ ok (fid, rest)

-- The message asks for these bytes to be written at this offset of a fid.
pub record AsksWrite (m : RawMessage) (fid offset : ℕ) (bs : Str) : Type 0 where
  pub behind_fid : Str
  pub behind_offset : Str
  pub behind_count : Str
  pub rest : Str
  pub count : ℕ
  pub asks : Asks m twrite fid behind_fid
  pub offset_decoded : read_u64 behind_fid ≡ ok (offset, behind_offset)
  pub count_decoded : read_u32 behind_offset ≡ ok (count, behind_count)
  pub bytes_read : read_exact count behind_count ≡ ok (bs, rest)

-- The message asks for a file or a directory of this name and these permissions below what a fid stands for.
pub record AsksCreate (m : RawMessage) (fid : ℕ) (name : Str) (perm : ℕ) : Type 0 where
  pub behind_fid : Str
  pub behind_name : Str
  pub rest : Str
  pub asks : Asks m tcreate fid behind_fid
  pub name_decoded : read_string behind_fid ≡ ok (name, behind_name)
  pub perm_decoded : read_u32 behind_name ≡ ok (perm, rest)

-- The types of message, reads aside, whose handlers change nothing.
abbrev pub looks : ℕ → Bool
looks t = (t == tversion) || (t == tauth) || (t == tflush) || (t == tstat)

-- What may become of the state on a message, and the reply to it.
pub data Step (m : RawMessage) (s : Server) : Reply → Server → Type 0 where
  -- An error is replied, and nothing changes.
  refused : {r : Reply} → r.msg_type ≡ rerror → Step m s r s
  -- The message only looks.
  looked : {r : Reply} → looks m.msg_type ≡ true → Step m s r s
  -- Bytes are read through a fid that is open for it.
  was_read :
      {r : Reply} (fid : ℕ) (rest : Str) (st : FidState)
      → Asks m tread fid rest
      → OpenForRead s fid st
      → r.msg_type ≡ rread
      → Step m s r s
  -- The fid of an attach stands for the root, and is not open.
  attached :
      {r : Reply} (fid : ℕ) (rest : Str) (qid : Qid)
      → Asks m tattach fid rest
      → r.msg_type ≡ rattach
      → Step m s r (record s { fid_states = insert fid (new_fid (bytes "/") qid) s.fid_states })
  -- The new fid of a walk stands for an absolute path, and is not open.
  walked_to :
      {r : Reply} (fid newfid : ℕ) (rest more path : Str) (qid : Qid)
      → Asks m twalk fid rest
      → read_u32 rest ≡ ok (newfid, more)
      → IsAbsolute path
      → r.msg_type ≡ rwalk
      → Step m s r (record s { fid_states = insert newfid (new_fid path qid) s.fid_states })
  -- The new fid of a clone stands for what the old one stands for.
  cloned :
      {r : Reply} (fid newfid : ℕ) (rest more : Str) (st : FidState)
      → Asks m tclone fid rest
      → read_u32 rest ≡ ok (newfid, more)
      → lookup fid s.fid_states ≡ some st
      → r.msg_type ≡ rclone
      → Step m s r (record s { fid_states = insert newfid st s.fid_states })
  -- A fid that is in use, at whose path something is, is opened in the mode that was asked for, on the same
  -- path.
  opened_for :
      {r : Reply} (fid mode : ℕ) (rest more : Str) (st : FidState) (inode : Inode) (qid : Qid)
      → Asks m topen fid rest
      → read_u8 rest ≡ ok (mode, more)
      → lookup fid s.fid_states ≡ some st
      → stat st.path s.ramfs ≡ some inode
      → r.msg_type ≡ ropen
      → Step m s r (record s {
        fid_states = insert fid (record st { qid = qid; open_mode = some mode }) s.fid_states;
      })
  -- A fid is dropped.
  dropped :
      {r : Reply} (fid : ℕ) (rest : Str)
      → Asks m tclunk fid rest
      → r.msg_type ≡ rclunk
      → Step m s r (record s { fid_states = remove fid s.fid_states })
  -- The bytes that were asked for are written through a fid that is open for it.
  wrote :
      {r : Reply} (fid : ℕ) (st : FidState) (checks : Bool) (now offset : ℕ) (bs : Str)
      (n : Option ℕ) (fs : RamFs)
      → AsksWrite m fid offset bs
      → OpenForWrite s fid st
      → write checks now st.path offset bs s.ramfs ≡ ok (n, fs)
      → r.msg_type ≡ rwrite
      → Step m s r (record s { ramfs = fs })
  -- The attributes or the name behind a fid change to those that were asked for.
  changed :
      {r : Reply} (fid : ℕ) (st : FidState) (rest more : Str) (to : Stat) (u : Option (Unit {0}))
      (fs : RamFs)
      → Asks m twstat fid rest
      → decode_stat rest ≡ ok (to, more)
      → lookup fid s.fid_states ≡ some st
      → wstat_from_stat st.path to s.ramfs ≡ ok (u, fs)
      → Step m s r (record s { ramfs = fs })
  -- What a fid stands for is removed, and the fid with it.
  removed :
      {r : Reply} (fid : ℕ) (st : FidState) (rest : Str) (u : Option (Unit {0})) (fs : RamFs)
      → Asks m tremove fid rest
      → lookup fid s.fid_states ≡ some st
      → remove_path st.path s.ramfs ≡ ok (u, fs)
      → Step m s r (record { fid_states = remove fid s.fid_states; ramfs = fs })
  -- A file or a directory is made under the name that was asked for, below what a fid stands for, where
  -- nothing is.
  created :
      {r : Reply} (fid : ℕ) (st : FidState) (name : Str) (now : ℕ → ℕ) (perm : ℕ) (path : Str)
      → AsksCreate m fid name perm
      → lookup fid s.fid_states ≡ some st
      → resolve_step st.path name ≡ some path
      → stat path s.ramfs ≡ none
      → r.msg_type ≡ rcreate
      → Step m s r (record s { ramfs = made now perm path s.ramfs })

-- Whatever a handler replies, the reply and the state that it leaves satisfy `P`.
abbrev pub Ensures {ℓ} : (Reply → Server → Type ℓ) → Handled → Type ℓ
Ensures P = Returns (λ (x : Reply × Server). P x.0 x.1)

pub Ensures-bind {ℓ κ} :
    {A : Type κ} (P : Reply → Server → Type ℓ) (m : Res A) (f : A → Handled)
    → ((a : A) → m ≡ ok a → Ensures P (f a))
    → Ensures P (m >>= f)
Ensures-bind P m f h = Returns-bind (λ (x : Reply × Server). P x.0 x.1) m f h

pub insert-FidsAbsolute :
    (s : Server) (fid : ℕ) (st : FidState)
    → FidsAbsolute s
    → IsAbsolute st.path
    → FidsAbsolute (record s { fid_states = insert fid st s.fid_states })
insert-FidsAbsolute s fid st h a = record {
  at = λ k x e. ground (arith, lookup-insert fid k st s.fid_states, h.at k x);
}

remove-FidsAbsolute :
    (s : Server) (fid : ℕ) (fs : RamFs)
    → FidsAbsolute s
    → FidsAbsolute (record { fid_states = remove fid s.fid_states; ramfs = fs })
remove-FidsAbsolute s fid fs h = record {
  at = λ k x e. ground (arith, lookup-remove fid k s.fid_states, h.at k x);
}

-- A step keeps the paths of fids absolute.
pub Step-FidsAbsolute :
    {m : RawMessage} {s t : Server} {r : Reply} → Step m s r t → FidsAbsolute s → FidsAbsolute t
Step-FidsAbsolute (refused e) h = h
Step-FidsAbsolute (looked e) h = h
Step-FidsAbsolute (was_read fid rest st a o k) h = h
Step-FidsAbsolute (attached fid rest qid a k) h = insert-FidsAbsolute _ fid _ h refl
Step-FidsAbsolute (walked_to fid newfid rest more path qid a d p k) h =
    insert-FidsAbsolute _ newfid _ h p
Step-FidsAbsolute (cloned fid newfid rest more st a d l k) h =
    insert-FidsAbsolute _ newfid st h (h.at fid st l)
Step-FidsAbsolute (opened_for fid mode rest more st inode qid a d l e k) h =
    insert-FidsAbsolute _ fid _ h (h.at fid st l)
Step-FidsAbsolute (dropped fid rest a k) h = remove-FidsAbsolute _ fid _ h
Step-FidsAbsolute (wrote fid st checks now offset bs n fs a o w k) h = record { at = h.at }
Step-FidsAbsolute (changed fid st rest more to u fs a d l w) h = record { at = h.at }
Step-FidsAbsolute (removed fid st rest u fs a l w) h = remove-FidsAbsolute _ fid fs h
Step-FidsAbsolute (created fid st name now perm path a l p e k) h = record { at = h.at }
