-- ===== src/Ramfs/Server/Walk.antt =====
-- `handle_walk` of libs/planten_fs_ramfs/src/server.rs, on requests as the client
-- encodes them.
use planten.Base.{ℕ, ◌^◌, ◌<◌, ◌≡◌, refl, ◌∙◌}
use planten.Base.{Option, none, some, ok, ◌>>=◌, List, []}
use planten.Base.{◌++◌, Str, length, All, lookup, insert, get_last?}
use planten.Wire.Bytes.{le_bytes}
use planten.Wire.Types.{Qid}
use planten.Wire.Encode.{encode_names, encode_walk_body}
use planten.Wire.RoundTrip.{decode_u16-le_bytes, decode_u32-le_bytes}
use planten.Wire.Messages.{rwalk, rerror}
use planten.Fs.Inode.{Inode}
use planten.Fs.FilePath.{components}
use planten.Ramfs.Tree.{RamFs, stat, stat_at}
use planten.Ramfs.Server.State.{FidState, new_fid, Server, encode_error, qid_from_inode}
use planten.Ramfs.Server.Handlers.{base_state, walk_names, walk_qid}
use planten.Ramfs.Server.Handlers.{finish_walk, handle_walk, concat_qids}
use native.Mathlib.Nat.{mod-eq_of_lt}
use planten.Ramfs.Server.Names.{IsPlain, walk_names-found, walk_names-missing}

module _ (hash : Str → ℕ → ℕ) (fs : RamFs) where
  walk_qid-there :
      (path : Str) (o : Option Qid) (m : Inode)
      → stat path fs ≡ some m
      → (l : Qid) × (walk_qid hash fs path o ≡ some l)
  unfolding walk_qid
  walk_qid-there path none m e = (qid_from_inode hash path m, rw (e, walk_qid) refl)
  walk_qid-there path (some l) m e = (l, refl)

module _ (hash : Str → ℕ → ℕ) (fid newfid : ℕ) (names : List Str) (s : Server) (st : FidState)
    (plain : All IsPlain names) (names_fit : length names < 2 ^ 16) (fid_fits : fid < 2 ^ 32)
    (newfid_fits : newfid < 2 ^ 32) (used : lookup fid s.fid_states ≡ some st) where
  handle_walk-names : handle_walk hash (encode_walk_body fid newfid names) s ≡ (
      walk_names hash s.ramfs (length names) (encode_names names) st.path [] >>= λ w.
      finish_walk hash newfid w s)
  unfolding handle_walk encode_walk_body base_state
  handle_walk-names =
      rw
        (
          decode_u32-le_bytes fid _ fid_fits,
          decode_u32-le_bytes newfid _ newfid_fits,
          mod-eq_of_lt names_fit,
          decode_u16-le_bytes (length names) _ names_fit,
          used,
          base_state,
        )
        refl

  -- A walk from a fid in use, by fewer than 2 ^ 16 plain names that lead from its path to an inode: the
  -- reply has one qid for each name, and the new fid stands for the path they lead to.
  pub handle_walk-found :
      (m : Inode)
      → stat_at (components st.path ++ names) s.ramfs.root ≡ some m
      → (p : Str) × (qs : List Qid) × (last : Qid) × (handle_walk hash
            (encode_walk_body fid newfid names)
            s
          ≡ ok (
            record { msg_type = rwalk; body = le_bytes 2 (length names) ++ concat_qids qs },
            record s { fid_states = insert newfid (new_fid p last) s.fid_states },
          ))
        × (components p ≡ components st.path ++ names)
        × (length qs ≡ length names)
  unfolding finish_walk stat
  handle_walk-found m e =
      let (p, qs, walked, comps, len) = walk_names-found hash s.ramfs names st.path [] m plain e in
      let (last, l) = walk_qid-there hash s.ramfs p (get_last? qs) m (rw comps e) in
      (
        p,
        qs,
        last,
        handle_walk-names ∙ rw (walked, finish_walk, l, len, mod-eq_of_lt names_fit) refl,
        comps,
        len,
      )

  -- A walk from a fid in use whose path leads to an inode, by fewer than 2 ^ 16 plain names of which one
  -- is missing, is answered with an error, and nothing changes.
  pub handle_walk-missing :
      (n : Inode)
      → stat_at (components st.path) s.ramfs.root ≡ some n
      → stat_at (components st.path ++ names) s.ramfs.root ≡ none
      → (message : Str) × (handle_walk hash (encode_walk_body fid newfid names) s
          ≡ ok (record { msg_type = rerror; body = encode_error message }, s))
  unfolding finish_walk
  handle_walk-missing n there e =
      let (message, failed_) = walk_names-missing hash s.ramfs names st.path [] n plain there e in
      (message, handle_walk-names ∙ rw (failed_, finish_walk) refl)
