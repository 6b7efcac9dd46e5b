-- ===== src/Ramfs/Server/Panics.antt =====
-- Which messages can make a handler of libs/planten_fs_ramfs/src/server.rs panic.
use planten.Base.{ℕ, zero, suc, ◌≡◌}
use planten.Base.{
  Option, none, some, Res, ok, err, panic, ◌>>=◌, Bool-cases, inl, inr, List, [], Str,
}
use planten.Base.{bytes, if◌then◌else◌, ErrorKind, ◌++◌, lookup, is_some, Option-cases}
use planten.Base.{ltb, length, get_last?}
use planten.Wire.Utf8.{is_utf8}
use planten.Wire.Bytes.{read_exact}
use planten.Wire.Decode.{decode_u16, decode_u32, decode_string}
use planten.Wire.Types.{Qid}
use planten.Fs.Inode.{Inode}
use planten.Fs.FilePath.{components, split, non_empty}
use planten.Ramfs.Tree.{RamFs, stat, stat_at}
use planten.Ramfs.Files.{stat-create_some}
use planten.Ramfs.Server.Resolve.{resolve_step}
use planten.Ramfs.Server.State.{FidState, Server, read_u8, is_dir_mode}
use planten.Ramfs.Server.Handlers.{Walked, reached, failed, attach_root, handle_attach, base_state}
use planten.Ramfs.Server.Handlers.{
  walk_step, walk_names, walk_qid, finish_walk, handle_walk, open_inode,
}
use planten.Ramfs.Server.Handlers.{open_fid, handle_open}
use planten.Ramfs.Server.Files.{
  stat_path, stat_fid, handle_stat, made, create_new, create_at, create_fid, handle_create,
}

abbrev pub NoPanic {ℓ} : {A : Type ℓ} → Res A → Type 0
NoPanic (ok a) = Unit
NoPanic (err e) = Unit
NoPanic panic = ⊥

pub NoPanic-bind {ℓ κ} :
    {A : Type ℓ} {B : Type κ} (m : Res A) (f : A → Res B)
    → NoPanic m
    → ((a : A) → NoPanic (f a))
    → NoPanic (m >>= f)
NoPanic-bind (ok a) f h k = k a
NoPanic-bind (err e) f h k = tt
NoPanic-bind panic f h k = h

pub read_exact-NoPanic : (n : ℕ) (c : Str) → NoPanic (read_exact n c)
unfolding read_exact
read_exact-NoPanic n c = elim (Bool-cases (ltb (length c) n)) [ inl e ↦ rw e tt | inr e ↦ rw e tt ]

pub decode_u16-NoPanic : (c : Str) → NoPanic (decode_u16 c)
unfolding decode_u16
decode_u16-NoPanic c = NoPanic-bind (read_exact 2 c) _ (read_exact-NoPanic 2 c) λ x. tt

pub decode_u32-NoPanic : (c : Str) → NoPanic (decode_u32 c)
unfolding decode_u32
decode_u32-NoPanic c = NoPanic-bind (read_exact 4 c) _ (read_exact-NoPanic 4 c) λ x. tt

read_u8-NoPanic : (c : Str) → NoPanic (read_u8 c)
unfolding read_u8
read_u8-NoPanic c = NoPanic-bind (read_exact 1 c) _ (read_exact-NoPanic 1 c) λ x. tt

pub decode_string-NoPanic : (c : Str) → NoPanic (decode_string c)
unfolding decode_string
decode_string-NoPanic c =
    NoPanic-bind (decode_u16 c) _ (decode_u16-NoPanic c) λ (n, c).
      NoPanic-bind (read_exact n c) _ (read_exact-NoPanic n c) λ (buffer, c). valid buffer c
  where
    valid :
        (buffer c : Str)
        → NoPanic {A = Str × Str}
            (if is_utf8 buffer then ok (buffer, c) else err ErrorKind.invalid_data)
    valid buffer c = elim (Bool-cases (is_utf8 buffer)) [ inl e ↦ rw e tt | inr e ↦ rw e tt ]

-- What was made is there: the `unwrap` of a `stat` after `create_dir` or `create_file` is safe.
stat-made :
    (now : ℕ → ℕ) (perm : ℕ) (path : Str) (fs : RamFs)
    → (m : Inode) × (stat path (made now perm path fs) ≡ some m)
unfolding made
stat-made now perm path fs = elim (Bool-cases (is_dir_mode perm)) [
  | inl e ↦ rw e (stat-create_some now path [] fs).1
  | inr e ↦ rw e (stat-create_some now path [] fs).0
]

module _ (hash : Str → ℕ → ℕ) where
  pub handle_attach-NoPanic : (body : Str) (s : Server) → NoPanic (handle_attach hash body s)
  unfolding handle_attach
  handle_attach-NoPanic body s =
      NoPanic-bind (decode_u32 body) _ (decode_u32-NoPanic body) λ (fid, c).
        NoPanic-bind (decode_u32 c) _ (decode_u32-NoPanic c) λ (a, c).
          NoPanic-bind (decode_string c) _ (decode_string-NoPanic c) λ (u, c).
            NoPanic-bind (decode_string c) _ (decode_string-NoPanic c)
              λ (n, c). go fid (stat (bytes "/") s.ramfs)
    where
      go : (fid : ℕ) (o : Option Inode) → NoPanic (attach_root hash fid o s)
      go fid none = unfold attach_root in tt
      go fid (some inode) = unfold attach_root in tt

  -- The root always exists, so that the `expect` of a walk from an unknown fid is safe.
  base_state-NoPanic : (o : Option FidState) (fs : RamFs) → NoPanic (base_state hash o fs)
  unfolding base_state stat stat_at components split non_empty
  base_state-NoPanic none fs = tt
  base_state-NoPanic (some st) fs = tt

  walk_step-NoPanic :
      (fs : RamFs) (path name : Str) (o : Option Str) → NoPanic (walk_step hash fs path name o)
  unfolding walk_step
  walk_step-NoPanic fs path name none = tt
  walk_step-NoPanic fs path name (some next) = elim (Option-cases (stat next fs)) [
    | inl e ↦ rw (e, walk_step) tt
    | inr (m, e) ↦ rw (e, walk_step) tt
  ]

  walk_names-NoPanic :
      (fs : RamFs) (n : ℕ) (c path : Str) (qids : List Qid)
      → NoPanic (walk_names hash fs n c path qids)
  unfolding walk_names
  walk_names-NoPanic fs zero c path qids = tt
  walk_names-NoPanic fs (suc n) c path qids =
      NoPanic-bind (decode_string c) _ (decode_string-NoPanic c) λ (name, c).
        NoPanic-bind (walk_step hash fs path name (resolve_step path name)) _
          (walk_step-NoPanic fs path name (resolve_step path name))
          λ w. next c w (λ p qs. walk_names-NoPanic fs n c p (qids ++ qs))
    where
      next :
          (c : Str) (w : Walked)
          → ((p : Str) (qs : List Qid) → NoPanic (walk_names hash fs n c p (qids ++ qs)))
          → NoPanic (elim w [
            | failed message ↦ ok (failed message)
            | reached p qs ↦ walk_names hash fs n c p (qids ++ qs)
          ])
      next c (failed message) ih = tt
      next c (reached p qs) ih = ih p qs

  finish_walk-NoPanic :
      (newfid : ℕ) (w : Walked) (s : Server) → NoPanic (finish_walk hash newfid w s)
  unfolding finish_walk
  finish_walk-NoPanic newfid (failed message) s = tt
  finish_walk-NoPanic newfid (reached path qids) s =
      elim (Option-cases (walk_qid hash s.ramfs path (get_last? qids))) [
        | inl e ↦ rw (e, finish_walk) tt
        | inr (q, e) ↦ rw (e, finish_walk) tt
      ]

  pub handle_walk-NoPanic : (body : Str) (s : Server) → NoPanic (handle_walk hash body s)
  unfolding handle_walk
  handle_walk-NoPanic body s =
      NoPanic-bind (decode_u32 body) _ (decode_u32-NoPanic body) λ (fid, c).
        NoPanic-bind (decode_u32 c) _ (decode_u32-NoPanic c) λ (newfid, c).
          NoPanic-bind (decode_u16 c) _ (decode_u16-NoPanic c) λ (n, c).
            NoPanic-bind (base_state hash (lookup fid s.fid_states) s.ramfs) _
              (base_state-NoPanic (lookup fid s.fid_states) s.ramfs)
              λ base.
                NoPanic-bind (walk_names hash s.ramfs n c base.path []) _
                  (walk_names-NoPanic s.ramfs n c base.path []) λ w. finish_walk-NoPanic newfid w s

  pub handle_open-NoPanic : (body : Str) (s : Server) → NoPanic (handle_open hash body s)
  unfolding handle_open
  handle_open-NoPanic body s =
      NoPanic-bind (decode_u32 body) _ (decode_u32-NoPanic body) λ (fid, c).
        NoPanic-bind (read_u8 c) _ (read_u8-NoPanic c)
          λ (mode, c). go fid mode (lookup fid s.fid_states)
    where
      opened :
          (fid mode : ℕ) (st : FidState) (o : Option Inode)
          → NoPanic (open_inode hash fid mode st o s)
      opened fid mode st none = unfold open_inode in tt
      opened fid mode st (some inode) = unfold open_inode in tt

      go : (fid mode : ℕ) (o : Option FidState) → NoPanic (open_fid hash fid mode o s)
      go fid mode none = unfold open_fid in tt
      go fid mode (some st) = unfold open_fid in opened fid mode st (stat st.path s.ramfs)

  pub handle_stat-NoPanic : (body : Str) (s : Server) → NoPanic (handle_stat hash body s)
  unfolding handle_stat
  handle_stat-NoPanic body s =
      NoPanic-bind (decode_u32 body) _ (decode_u32-NoPanic body)
        λ (fid, c). go (lookup fid s.fid_states)
    where
      found : (path : Str) (o : Option Inode) → NoPanic (stat_path hash path o s)
      found path none = unfold stat_path in tt
      found path (some inode) = unfold stat_path in tt

      go : (o : Option FidState) → NoPanic (stat_fid hash o s)
      go none = unfold stat_fid in tt
      go (some st) = unfold stat_fid in found st.path (stat st.path s.ramfs)

  -- `handle_create` never panics.
  pub handle_create-NoPanic :
      (now : ℕ → ℕ) (body : Str) (s : Server) → NoPanic (handle_create hash now body s)
  unfolding handle_create create_new
  handle_create-NoPanic now body s =
      NoPanic-bind (decode_u32 body) _ (decode_u32-NoPanic body) λ (fid, c).
        NoPanic-bind (decode_string c) _ (decode_string-NoPanic c) λ (name, c).
          NoPanic-bind (decode_u32 c) _ (decode_u32-NoPanic c) λ (perm, c).
            NoPanic-bind (read_u8 c) _ (read_u8-NoPanic c)
              λ (mode, c). go perm name (lookup fid s.fid_states)
    where
      fresh : (perm : ℕ) (path : Str) → NoPanic (create_new hash now perm path s)
      fresh perm path = let (m, e) = stat-made now perm path s.ramfs in rw (create_new, e) tt

      at : (perm : ℕ) (o : Option Str) → NoPanic (create_at hash now perm o s)
      at perm none = unfold create_at in tt
      at perm (some path) = elim (Bool-cases (is_some (stat path s.ramfs))) [
        | inl e ↦ unfold create_at in rw e tt
        | inr e ↦ unfold create_at in rw e (fresh perm path)
      ]

      go :
          (perm : ℕ) (name : Str) (o : Option FidState)
          → NoPanic (create_fid hash now perm name o s)
      go perm name none = unfold create_fid in tt
      go perm name (some st) = unfold create_fid in at perm (resolve_step st.path name)
