-- ===== src/Ramfs/Server/Handlers.antt =====
-- The handlers of libs/planten_fs_ramfs/src/server.rs that change fids: version, auth, attach, walk,
-- clone, open, clunk and flush. Each decodes its body before it changes anything.
use planten.Base.{ℕ, zero, suc, ◌%◌, ◌^◌, Option, none, some, Res, ok, ◌>>=◌}
use planten.Base.{
  List, [], ◌∷◌, ◌++◌, Str, bytes, length, replicate, get_last?, lookup, insert, remove,
}
use planten.Base.{unwrap}
use planten.Wire.Bytes.{le_bytes}
use planten.Wire.Types.{Qid}
use planten.Wire.Encode.{encode_qid_bytes}
use planten.Wire.Messages.{rversion, rauth, rattach, rwalk, rclone, ropen, rclunk, rflush}
use planten.Fs.Inode.{Inode}
use planten.Ramfs.Tree.{RamFs, stat}
use planten.Ramfs.Server.Resolve.{resolve_step}
use planten.Ramfs.Server.State.{FidState, new_fid, Server, Handled, respond, send_error}
use planten.Ramfs.Server.State.{build_version_body, qid_from_inode, read_u8, read_u16, read_u32}
use planten.Ramfs.Server.State.{read_string}

unfoldable pub handle_version : Str → Server → Handled
handle_version body s = do
  (_, cursor) ← read_u32 body
  (_, cursor) ← read_string cursor
  respond rversion (build_version_body 131072 (bytes "9P2000")) s

unfoldable pub handle_auth : Str → Server → Handled
handle_auth body s = respond rauth (replicate 13 0) s

unfoldable pub handle_flush : Str → Server → Handled
handle_flush body s = respond rflush [] s

unfoldable pub handle_clunk : Str → Server → Handled
handle_clunk body s = do
  (fid, cursor) ← read_u32 body
  respond rclunk [] (record s { fid_states = remove fid s.fid_states })

unfoldable pub clone_from : Option FidState → ℕ → Server → Handled
clone_from none newfid s = send_error (bytes "unknown fid") s
clone_from (some state) newfid s =
    respond rclone [] (record s { fid_states = insert newfid state s.fid_states })

unfoldable pub handle_clone : Str → Server → Handled
handle_clone body s = do
  (fid, cursor) ← read_u32 body
  (newfid, cursor) ← read_u32 cursor
  clone_from (lookup fid s.fid_states) newfid s

-- What the loop of a walk comes to: a path with the qids on the way, or an error reply.
pub data Walked : Type 0 where
  reached : Str → List Qid → Walked
  failed : Str → Walked

unfoldable pub concat_qids : List Qid → Str
concat_qids [] = []
concat_qids (q ∷ qs) = encode_qid_bytes q ++ concat_qids qs

module _ (hash : Str → ℕ → ℕ) where
  unfoldable pub attach_root : ℕ → Option Inode → Server → Handled
  attach_root fid none s = send_error (bytes "root missing") s
  attach_root fid (some inode) s =
      let qid = qid_from_inode hash (bytes "/") inode in
      respond rattach (encode_qid_bytes qid)
        (record s { fid_states = insert fid (new_fid (bytes "/") qid) s.fid_states })

  unfoldable pub handle_attach : Str → Server → Handled
  handle_attach body s = do
    (fid, cursor) ← read_u32 body
    (_, cursor) ← read_u32 cursor
    (_, cursor) ← read_string cursor
    (_, cursor) ← read_string cursor
    attach_root fid (stat (bytes "/") s.ramfs) s

  -- `fid_states.get(&fid).cloned().unwrap_or_else(…)`: an unknown fid walks from the root.
  unfoldable pub base_state : Option FidState → RamFs → Res FidState
  base_state (some state) fs = ok state
  base_state none fs = do
    inode ← unwrap (stat (bytes "/") fs)
    ok (new_fid (bytes "/") (qid_from_inode hash (bytes "/") inode))

  -- One step of the loop: the next path and its inode, or an error reply.
  unfoldable pub walk_step : RamFs → Str → Str → Option Str → Res Walked
  walk_step fs path name none =
      ok (failed (bytes "walk failed: invalid component '" ++ (name ++ bytes "'")))
  walk_step fs path name (some next) = elim (stat next fs) [
    | none ↦ ok (failed (bytes "walk failed: component '" ++ (name ++ bytes "' not found")))
    | some inode ↦ ok (reached next (qid_from_inode hash next inode ∷ []))
  ]

  unfoldable pub walk_names : RamFs → ℕ → Str → Str → List Qid → Res Walked
  walk_names fs zero cursor path qids = ok (reached path qids)
  walk_names fs (suc n) cursor path qids = do
    (name, cursor) ← read_string cursor
    w ← walk_step fs path name (resolve_step path name)
    elim w [
      | failed message ↦ ok (failed message)
      | reached next qs ↦ walk_names fs n cursor next (qids ++ qs)
    ]

  -- `qids.last().cloned()`, or the qid of the path itself.
  unfoldable pub walk_qid : RamFs → Str → Option Qid → Option Qid
  walk_qid fs path (some last) = some last
  walk_qid fs path none = elim (stat path fs) [
    | none ↦ none
    | some inode ↦ some (qid_from_inode hash path inode)
  ]

  unfoldable pub finish_walk : ℕ → Walked → Server → Handled
  finish_walk newfid (failed message) s = send_error message s
  finish_walk newfid (reached path qids) s = elim (walk_qid s.ramfs path (get_last? qids)) [
    | none ↦ send_error (bytes "walk failed: target missing") s
    | some qid ↦
        respond rwalk (le_bytes 2 (length qids % 2 ^ 16) ++ concat_qids qids)
          (record s { fid_states = insert newfid (new_fid path qid) s.fid_states })
  ]

  unfoldable pub handle_walk : Str → Server → Handled
  handle_walk body s = do
    (fid, cursor) ← read_u32 body
    (newfid, cursor) ← read_u32 cursor
    (nwname, cursor) ← read_u16 cursor
    base ← base_state (lookup fid s.fid_states) s.ramfs
    w ← walk_names s.ramfs nwname cursor base.path []
    finish_walk newfid w s

  unfoldable pub open_inode : ℕ → ℕ → FidState → Option Inode → Server → Handled
  open_inode fid mode state none s = send_error (bytes "file not found") s
  open_inode fid mode state (some inode) s =
      let qid = qid_from_inode hash state.path inode in
      respond ropen (encode_qid_bytes qid ++ le_bytes 4 0) (record s {
        fid_states = insert fid (record state { qid = qid; open_mode = some mode }) s.fid_states;
      })

  unfoldable pub open_fid : ℕ → ℕ → Option FidState → Server → Handled
  open_fid fid mode none s = send_error (bytes "unknown fid") s
  open_fid fid mode (some state) s = open_inode fid mode state (stat state.path s.ramfs) s

  unfoldable pub handle_open : Str → Server → Handled
  handle_open body s = do
    (fid, cursor) ← read_u32 body
    (mode, cursor) ← read_u8 cursor
    open_fid fid mode (lookup fid s.fid_states) s
