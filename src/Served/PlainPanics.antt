-- ===== src/Served/PlainPanics.antt =====
-- Which messages make the servers of libs/planten_fs_dev/src/server.rs and
-- libs/planten_fs_net/src/server.rs panic.
use planten.Base.{ℕ, ◌≡◌, refl, Bool, true, false, Option, none, some, Res, panic, Str, lookup}
use planten.Wire.Types.{RawMessage}
use planten.Wire.Decode.{decode_string, decode_u16, decode_u32, decode_u64}
use planten.Wire.Messages.{tversion, tattach, twalk, topen, tread, tstat, tclunk}
use planten.Ramfs.Server.State.{Reply}
use planten.Ramfs.Server.Panics.{NoPanic, NoPanic-bind, decode_u16-NoPanic, decode_u32-NoPanic}
use planten.Ramfs.Server.Panics.{decode_string-NoPanic}
use planten.Served.View.{FsView, read_names, read_slice}
use planten.Served.Panics.{
  decode_u64-NoPanic, read_names-NoPanic, read_slice-NoPanic, never, if_intro,
}
use planten.Served.Plain.{
  PlainFid, PlainFids, plain_version, plain_attach, plain_walk, plain_read_found,
}
use planten.Served.Plain.{
  plain_read_known, plain_read, plain_open, plain_stat, plain_clunk, plain_answer,
}

plain_version-NoPanic : (body : Str) (fids : PlainFids) → NoPanic (plain_version body fids)
unfolding plain_version
plain_version-NoPanic body fids =
    NoPanic-bind (decode_u32 body) _ (decode_u32-NoPanic body)
      λ (msize, c). NoPanic-bind (decode_string c) _ (decode_string-NoPanic c) λ (version, c). tt

plain_attach-NoPanic : (root body : Str) (fids : PlainFids) → NoPanic (plain_attach root body fids)
unfolding plain_attach
plain_attach-NoPanic root body fids =
    NoPanic-bind (decode_u32 body) _ (decode_u32-NoPanic body) λ (fid, c).
      NoPanic-bind (decode_u32 c) _ (decode_u32-NoPanic c) λ (afid, c).
        NoPanic-bind (decode_string c) _ (decode_string-NoPanic c)
          λ (uname, c). NoPanic-bind (decode_string c) _ (decode_string-NoPanic c) λ (aname, c). tt

plain_walk-NoPanic :
    (root : Str) (v : FsView) (body : Str) (fids : PlainFids)
    → NoPanic (plain_walk root v body fids)
unfolding plain_walk
plain_walk-NoPanic root v body fids =
    NoPanic-bind (decode_u32 body) _ (decode_u32-NoPanic body) λ (fid, c).
      NoPanic-bind (decode_u32 c) _ (decode_u32-NoPanic c) λ (newfid, c).
        NoPanic-bind (decode_u16 c) _ (decode_u16-NoPanic c)
          λ (n, c). NoPanic-bind (read_names n c) _ (read_names-NoPanic n c) λ (names, c). tt

plain_read-NoPanic :
    (v : FsView) (body : Str) (fids : PlainFids) → NoPanic (plain_read v false body fids)
unfolding plain_read
plain_read-NoPanic v body fids =
    NoPanic-bind (decode_u32 body) _ (decode_u32-NoPanic body) λ (fid, c).
      NoPanic-bind (decode_u64 c) _ (decode_u64-NoPanic c) λ (offset, c).
        NoPanic-bind (decode_u32 c) _ (decode_u32-NoPanic c)
          λ (count, c). known offset count (lookup fid fids)
  where
    found :
        (offset count : ℕ) (o : Option Str) → NoPanic (plain_read_found false offset count o fids)
    found offset count none = unfold plain_read_found in tt
    found offset count (some bs) =
        unfold plain_read_found in
        NoPanic-bind (read_slice false offset count bs) _ (read_slice-NoPanic offset count bs)
          λ slice. tt

    known :
        (offset count : ℕ) (o : Option PlainFid)
        → NoPanic (plain_read_known v false offset count o fids)
    known offset count none = unfold plain_read_known in tt
    known offset count (some state) =
        unfold plain_read_known in found offset count (v.read state.path)

plain_stat-NoPanic : (v : FsView) (body : Str) (fids : PlainFids) → NoPanic (plain_stat v body fids)
unfolding plain_stat
plain_stat-NoPanic v body fids =
    NoPanic-bind (decode_u32 body) _ (decode_u32-NoPanic body) λ (fid, c). tt

plain_clunk-NoPanic : (body : Str) (fids : PlainFids) → NoPanic (plain_clunk body fids)
unfolding plain_clunk
plain_clunk-NoPanic body fids =
    NoPanic-bind (decode_u32 body) _ (decode_u32-NoPanic body) λ (fid, c). tt

plain_open-NoPanic : (body : Str) (fids : PlainFids) → NoPanic (plain_open body fids)
unfolding plain_open
plain_open-NoPanic body fids =
    NoPanic-bind (decode_u32 body) _ (decode_u32-NoPanic body) λ (fid, c). tt

-- In devfs and netfs, nothing panics but a read, in a build with overflow checks.
pub plain_answer-panic :
    (root : Str) (v : FsView) (checks : Bool) (m : RawMessage) (fids : PlainFids)
    → plain_answer root v checks m fids ≡ panic
    → (m.msg_type ≡ tread) × (checks ≡ true)
unfolding plain_answer
plain_answer-panic root v checks m fids =
    let P = λ (d : Res (Reply × PlainFids)). d ≡ panic → (m.msg_type ≡ tread) × (checks ≡ true) in
    if_intro P m.msg_type tversion _ _ (λ _. never _ (plain_version-NoPanic m.body fids))
      (if_intro P m.msg_type tattach _ _ (λ _. never _ (plain_attach-NoPanic root m.body fids))
        (if_intro P m.msg_type twalk _ _ (λ _. never _ (plain_walk-NoPanic root v m.body fids))
          (if_intro P m.msg_type tread _ _ (λ e. read_case checks e)
            (if_intro P m.msg_type topen _ _ (λ _. never _ (plain_open-NoPanic m.body fids))
              (if_intro P m.msg_type tstat _ _ (λ _. never _ (plain_stat-NoPanic v m.body fids))
                (if_intro P m.msg_type tclunk _ _ (λ _. never _ (plain_clunk-NoPanic m.body fids))
                  (λ p. cc)))))))
  where
    read_case :
        (c : Bool)
        → m.msg_type ≡ tread
        → plain_read v c m.body fids ≡ panic
        → (m.msg_type ≡ tread) × (c ≡ true)
    read_case true e p = (e, refl)
    read_case false e p = never _ (plain_read-NoPanic v m.body fids) p
