-- ===== src/Ramfs/Server/Refines.antt =====
-- The handlers of libs/planten_fs_ramfs/src/server.rs that change fids, against the contract.
use planten.Base.{ℕ, zero, suc, ◌≡◌, refl, ap, Option, none, some}
use planten.Base.{ok, List, [], ◌∷◌, ◌++◌, Str, bytes, lookup}
use planten.Base.{insert, unwrap, get_last?}
use mathlib.Core.Path.{subst}
use planten.Base.{Returns, Returns-bind, Returns-eq_ok, length, ◌%◌, ◌^◌, ok-injective, bind-eq-ok}
use planten.Wire.Bytes.{le_bytes}
use planten.Wire.Messages.{rwalk}
use planten.Ramfs.Server.State.{send_error, respond, new_fid, qid_from_inode}
use planten.Ramfs.Server.Handlers.{concat_qids}
use planten.Wire.Types.{Qid, RawMessage}
use planten.Fs.Inode.{Inode}
use planten.Ramfs.Tree.{RamFs, stat}
use planten.Ramfs.Server.Resolve.{resolve_step}
use planten.Ramfs.Server.State.{FidState, Server, read_u8, read_u16, read_u32}
use planten.Ramfs.Server.State.{read_string}
use planten.Ramfs.Server.Handlers.{handle_version, handle_clunk, handle_clone}
use planten.Ramfs.Server.Handlers.{
  clone_from, Walked, reached, failed, attach_root, handle_attach, base_state,
}
use planten.Ramfs.Server.Handlers.{
  walk_step, walk_names, walk_qid, finish_walk, handle_walk, open_inode,
}
use planten.Ramfs.Server.Handlers.{open_fid, handle_open}
use planten.Ramfs.Server.Absolute.{IsAbsolute, FidsAbsolute, resolve_step-IsAbsolute}
use planten.Ramfs.Server.Step.{
  Step, Asks, refused, looked, attached, walked_to, cloned, opened_for, dropped,
}
use planten.Ramfs.Server.Step.{Ensures, Ensures-bind}
use planten.Wire.Messages.{tversion, tattach, twalk, tclone, topen, tclunk}

pub handle_clone-Step :
    (m : RawMessage) (s : Server) → m.msg_type ≡ tclone → Ensures (Step m s) (handle_clone m.body s)
unfolding handle_clone
handle_clone-Step m s e = Ensures-bind (Step m s) (read_u32 m.body) _ λ (fid, c) d.
    Ensures-bind (Step m s) (read_u32 c) _ λ (newfid, c') d'.
      go fid newfid c c' (record { asked = e; decoded = d }) d' (lookup fid s.fid_states) refl
  where
    go :
        (fid newfid : ℕ) (c c' : Str)
        → Asks m tclone fid c
        → read_u32 c ≡ ok (newfid, c')
        → (o : Option FidState) → lookup fid s.fid_states ≡ o
        → Ensures (Step m s) (clone_from o newfid s)
    go fid newfid c c' a d none l = unfold clone_from in refused refl
    go fid newfid c c' a d (some st) l = unfold clone_from in cloned fid newfid c c' st a d l refl

pub handle_clunk-Step :
    (m : RawMessage) (s : Server) → m.msg_type ≡ tclunk → Ensures (Step m s) (handle_clunk m.body s)
unfolding handle_clunk
handle_clunk-Step m s e =
    Ensures-bind (Step m s) (read_u32 m.body) _
      λ (fid, c) d. dropped fid c (record { asked = e; decoded = d }) refl

pub handle_version-Step :
    (m : RawMessage) (s : Server)
    → m.msg_type ≡ tversion
    → Ensures (Step m s) (handle_version m.body s)
unfolding handle_version
handle_version-Step m s e =
    Ensures-bind (Step m s) (read_u32 m.body) _
      λ (n, c) _. Ensures-bind (Step m s) (read_string c) _ λ (v, c') _. looked (rw e refl)

module _ (hash : Str → ℕ → ℕ) where
  pub handle_attach-Step :
      (m : RawMessage) (s : Server)
      → m.msg_type ≡ tattach
      → Ensures (Step m s) (handle_attach hash m.body s)
  unfolding handle_attach
  handle_attach-Step m s e = Ensures-bind (Step m s) (read_u32 m.body) _ λ (fid, c) d.
      Ensures-bind (Step m s) (read_u32 c) _ λ (a, c') _.
        Ensures-bind (Step m s) (read_string c') _ λ (u, c') _.
          Ensures-bind (Step m s) (read_string c') _
            λ (n, c') _. go fid c (record { asked = e; decoded = d }) (stat (bytes "/") s.ramfs)
    where
      go :
          (fid : ℕ) (c : Str)
          → Asks m tattach fid c
          → (o : Option Inode) → Ensures (Step m s) (attach_root hash fid o s)
      go fid c a none = unfold attach_root in refused refl
      go fid c a (some inode) = unfold attach_root in attached fid c _ a refl

  base_state-IsAbsolute :
      (o : Option FidState) (fs : RamFs) (st : FidState)
      → ((x : FidState) → o ≡ some x → IsAbsolute x.path)
      → base_state hash o fs ≡ ok st
      → IsAbsolute st.path
  unfolding base_state
  base_state-IsAbsolute (some x) fs st h e = h st (ap some (ok-injective e))
  base_state-IsAbsolute none fs st h e =
      let (inode, u, e') = bind-eq-ok (unwrap (stat (bytes "/") fs)) _ e in
      subst (λ (x : FidState). IsAbsolute x.path) (ok-injective e') refl

  AbsoluteWalk : Walked → Type 0
  AbsoluteWalk (reached p qs) = IsAbsolute p
  AbsoluteWalk (failed message) = Unit

  walk_step-IsAbsolute :
      (fs : RamFs) (path name : Str)
      → IsAbsolute path
      → Returns AbsoluteWalk (walk_step hash fs path name (resolve_step path name))
  unfolding walk_step AbsoluteWalk
  walk_step-IsAbsolute fs path name a = next (resolve_step path name) refl
    where
      found :
          (p : Str) (o : Option Inode)
          → IsAbsolute p
          → Returns AbsoluteWalk (elim o [
            | none ↦ ok (failed (bytes "walk failed: component '" ++ (name ++ bytes "' not found")))
            | some inode ↦ ok (reached p (qid_from_inode hash p inode ∷ []))
          ])
      found p none h = tt
      found p (some inode) h = h

      next :
          (o : Option Str)
          → resolve_step path name ≡ o
          → Returns AbsoluteWalk (walk_step hash fs path name o)
      next none e = tt
      next (some p) e = found p (stat p fs) (resolve_step-IsAbsolute path name p a e)

  walk_names-IsAbsolute :
      (fs : RamFs) (n : ℕ) (cursor path : Str) (qids : List Qid)
      → IsAbsolute path
      → Returns AbsoluteWalk (walk_names hash fs n cursor path qids)
  unfolding walk_names AbsoluteWalk
  walk_names-IsAbsolute fs zero cursor path qids a = a
  walk_names-IsAbsolute fs (suc n) cursor path qids a =
      Returns-bind AbsoluteWalk (read_string cursor) _ λ (name, c) _.
        Returns-bind AbsoluteWalk (walk_step hash fs path name (resolve_step path name)) _ λ w e.
          next c w (Returns-eq_ok AbsoluteWalk _ w (walk_step-IsAbsolute fs path name a) e)
            (λ p qs. walk_names-IsAbsolute fs n c p (qids ++ qs))
    where
      next :
          (c : Str) (w : Walked)
          → AbsoluteWalk w
          → ((p : Str) (qs : List Qid)
              → IsAbsolute p
              → Returns AbsoluteWalk (walk_names hash fs n c p (qids ++ qs)))
          → Returns AbsoluteWalk (elim w [
            | failed message ↦ ok (failed message)
            | reached p qs ↦ walk_names hash fs n c p (qids ++ qs)
          ])
      next c (failed message) h ih = tt
      next c (reached p qs) h ih = ih p qs h

  finish_walk-Step :
      (m : RawMessage) (s : Server) (fid newfid : ℕ) (c c' : Str) (w : Walked)
      → Asks m twalk fid c
      → read_u32 c ≡ ok (newfid, c')
      → AbsoluteWalk w
      → Ensures (Step m s) (finish_walk hash newfid w s)
  unfolding finish_walk AbsoluteWalk
  finish_walk-Step m s fid newfid c c' (failed message) a d h = refused refl
  finish_walk-Step m s fid newfid c c' (reached path qids) a d h =
      go (walk_qid hash s.ramfs path (get_last? qids))
    where
      go :
          (o : Option Qid)
          → Ensures (Step m s) (elim o [
            | none ↦ send_error (bytes "walk failed: target missing") s
            | some qid ↦
                respond rwalk
                  (le_bytes 2 (length qids % 2 ^ 16) ++ concat_qids qids)
                  (record s { fid_states = insert newfid (new_fid path qid) s.fid_states })
          ])
      go none = refused refl
      go (some qid) = walked_to fid newfid c c' path qid a d h refl

  pub handle_walk-Step :
      (m : RawMessage) (s : Server)
      → m.msg_type ≡ twalk
      → FidsAbsolute s
      → Ensures (Step m s) (handle_walk hash m.body s)
  unfolding handle_walk
  handle_walk-Step m s t h = Ensures-bind (Step m s) (read_u32 m.body) _ λ (fid, c) d.
      Ensures-bind (Step m s) (read_u32 c) _ λ (newfid, c1) d'.
        Ensures-bind (Step m s) (read_u16 c1) _ λ (n, c2) _.
          Ensures-bind (Step m s) (base_state hash (lookup fid s.fid_states) s.ramfs) _ λ base e.
            Ensures-bind (Step m s) (walk_names hash s.ramfs n c2 base.path []) _ λ w e'.
              finish_walk-Step m s fid newfid c c1 w (record { asked = t; decoded = d }) d'
                (Returns-eq_ok AbsoluteWalk _ w
                  (walk_names-IsAbsolute s.ramfs n c2 base.path []
                    (base_state-IsAbsolute (lookup fid s.fid_states) s.ramfs base (h.at fid) e))
                  e')

  pub handle_open-Step :
      (m : RawMessage) (s : Server)
      → m.msg_type ≡ topen
      → Ensures (Step m s) (handle_open hash m.body s)
  unfolding handle_open
  handle_open-Step m s t = Ensures-bind (Step m s) (read_u32 m.body) _ λ (fid, c) d.
      Ensures-bind (Step m s) (read_u8 c) _ λ (mode, c') d'.
        go fid mode c c' (record { asked = t; decoded = d }) d' (lookup fid s.fid_states) refl
    where
      found :
          (fid mode : ℕ) (c c' : Str) (st : FidState)
          → Asks m topen fid c
          → read_u8 c ≡ ok (mode, c')
          → lookup fid s.fid_states ≡ some st
          → (o : Option Inode) → stat st.path s.ramfs ≡ o
          → Ensures (Step m s) (open_inode hash fid mode st o s)
      found fid mode c c' st a d l none e = unfold open_inode in refused refl
      found fid mode c c' st a d l (some inode) e =
          unfold open_inode in opened_for fid mode c c' st inode _ a d l e refl

      go :
          (fid mode : ℕ) (c c' : Str)
          → Asks m topen fid c
          → read_u8 c ≡ ok (mode, c')
          → (o : Option FidState) → lookup fid s.fid_states ≡ o
          → Ensures (Step m s) (open_fid hash fid mode o s)
      go fid mode c c' a d none l = unfold open_fid in refused refl
      go fid mode c c' a d (some st) l =
          unfold open_fid in found fid mode c c' st a d l (stat st.path s.ramfs) refl
