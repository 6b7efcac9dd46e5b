-- ===== src/Ramfs/Server/Safe.antt =====
-- The messages that can make the server of libs/planten_fs_ramfs/src/server.rs panic.
use planten.Base.{ℕ, ◌≡◌, Option, none, some, Res, panic, inl, inr, ◌⊎◌}
use planten.Base.{List, [], ◌∷◌, Str, lookup, Option-cases, Bool-cases, is_some}
use mathlib.Core.Path.{subst}
use planten.Wire.Decode.{decode_u32, decode_string}
use planten.Wire.Types.{RawMessage}
use planten.Wire.Messages.{tread, twrite, twstat}
use planten.Fs.Inode.{Inode, node}
use planten.Fs.Children.{get}
use planten.Ramfs.Tree.{RamFs, update_at, remove_child, remove_at, remove_path, split_last}
use planten.Fs.FilePath.{components}
use planten.Ramfs.Server.State.{FidState, Server, Handled}
use planten.Ramfs.Server.Handlers.{
  handle_version, handle_auth, handle_flush, handle_clunk, handle_clone,
}
use planten.Ramfs.Server.Handlers.{clone_from}
use planten.Ramfs.Server.Files.{outcome, remove_fid, handle_remove}
use planten.Ramfs.Server.Dispatch.{Env, dispatch, dispatch-cases}
use planten.Ramfs.Server.Panics.{NoPanic, NoPanic-bind, decode_u32-NoPanic, decode_string-NoPanic}
use planten.Ramfs.Server.Panics.{handle_attach-NoPanic, handle_walk-NoPanic, handle_open-NoPanic}
use planten.Ramfs.Server.Panics.{handle_stat-NoPanic, handle_create-NoPanic}

update_at-NoPanic :
    (p : List Str) (f : Inode → Res (Option Inode)) (n : Inode)
    → ((m : Inode) → NoPanic (f m))
    → NoPanic (update_at p f n)
unfolding update_at
update_at-NoPanic [] f n h = h n
update_at-NoPanic (c ∷ p) f (node a cs) h = elim (Option-cases (get c cs)) [
  | inl e ↦ rw (e, update_at) tt
  | inr (k, e) ↦
      rw (e, update_at) (NoPanic-bind (update_at p f k) _ (update_at-NoPanic p f k h) λ r. tt)
]

remove_child-NoPanic : (c : Str) (n : Inode) → NoPanic (remove_child c n)
unfolding remove_child
remove_child-NoPanic c (node a cs) = elim (Bool-cases (is_some (get c cs))) [
  | inl e ↦ rw e tt
  | inr e ↦ rw e tt
]

remove_path-NoPanic : (path : Str) (fs : RamFs) → NoPanic (remove_path path fs)
unfolding remove_path remove_at
remove_path-NoPanic path fs = elim (Option-cases (split_last (components path))) [
  | inl e ↦ rw (e, remove_at) tt
  | inr ((front, last), e) ↦
      rw (e, remove_at)
        (NoPanic-bind (update_at front (remove_child last) fs.root) _
          (update_at-NoPanic front (remove_child last) fs.root (remove_child-NoPanic last)) λ r. tt)
]

handle_remove-NoPanic : (body : Str) (s : Server) → NoPanic (handle_remove body s)
unfolding handle_remove
handle_remove-NoPanic body s =
    NoPanic-bind (decode_u32 body) _ (decode_u32-NoPanic body)
      λ (fid, c). go fid (lookup fid s.fid_states)
  where
    replied :
        (n : ℕ) (message : Str) (r : Option (Unit {0})) (t : Server)
        → NoPanic (outcome n message r t)
    replied n message none t = tt
    replied n message (some x) t = tt

    go : (fid : ℕ) (o : Option FidState) → NoPanic (remove_fid fid o s)
    go fid none = unfold remove_fid in tt
    go fid (some st) =
        unfold remove_fid in
        NoPanic-bind (remove_path st.path s.ramfs) _ (remove_path-NoPanic st.path s.ramfs)
          λ (r, fs). replied _ _ r _

handle_clone-NoPanic : (body : Str) (s : Server) → NoPanic (handle_clone body s)
unfolding handle_clone
handle_clone-NoPanic body s = NoPanic-bind (decode_u32 body) _ (decode_u32-NoPanic body) λ (fid, c).
    NoPanic-bind (decode_u32 c) _ (decode_u32-NoPanic c)
      λ (newfid, c). go newfid (lookup fid s.fid_states)
  where
    go : (newfid : ℕ) (o : Option FidState) → NoPanic (clone_from o newfid s)
    go newfid none = unfold clone_from in tt
    go newfid (some st) = unfold clone_from in tt

handle_clunk-NoPanic : (body : Str) (s : Server) → NoPanic (handle_clunk body s)
unfolding handle_clunk
handle_clunk-NoPanic body s = NoPanic-bind (decode_u32 body) _ (decode_u32-NoPanic body) λ x. tt

handle_version-NoPanic : (body : Str) (s : Server) → NoPanic (handle_version body s)
unfolding handle_version
handle_version-NoPanic body s =
    NoPanic-bind (decode_u32 body) _ (decode_u32-NoPanic body)
      λ (m, c). NoPanic-bind (decode_string c) _ (decode_string-NoPanic c) λ x. tt

-- The types of message whose handler can panic.
abbrev pub MayPanic : ℕ → Type 0
MayPanic t = (t ≡ tread) ⊎ ((t ≡ twrite) ⊎ (t ≡ twstat))

abbrev PanicOnly : ℕ → Handled → Type 0
PanicOnly t d = d ≡ panic → MayPanic t

never : (t : ℕ) (d : Handled) → NoPanic d → PanicOnly t d
never t d h e = absurd (subst (λ x. NoPanic x) e h)

-- Only reads, writes and changes of attributes can make a handler panic: every other message, whatever
-- its bytes and the state of the connection, is answered or ends the connection with an error.
pub dispatch-panic :
    (v : Env) (m : RawMessage) (s : Server) → dispatch v m s ≡ panic → MayPanic m.msg_type
unfolding handle_flush handle_auth
dispatch-panic v m s = dispatch-cases v m s (PanicOnly m.msg_type) (record {
  version = λ _. never _ _ (handle_version-NoPanic m.body s);
  attach = λ _. never _ _ (handle_attach-NoPanic v.hash m.body s);
  walk = λ _. never _ _ (handle_walk-NoPanic v.hash m.body s);
  opening = λ _. never _ _ (handle_open-NoPanic v.hash m.body s);
  read = λ e _. inl e;
  write = λ e _. inr (inl e);
  wstat = λ e _. inr (inr e);
  flush = λ _. never _ _ tt;
  remove = λ _. never _ _ (handle_remove-NoPanic m.body s);
  clunk = λ _. never _ _ (handle_clunk-NoPanic m.body s);
  stat = λ _. never _ _ (handle_stat-NoPanic v.hash m.body s);
  clone = λ _. never _ _ (handle_clone-NoPanic m.body s);
  create = λ _. never _ _ (handle_create-NoPanic v.hash v.now m.body s);
  auth = λ _. never _ _ tt;
  other = never _ _ tt;
})
