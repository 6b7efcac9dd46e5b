-- ===== src/Ramfs/Server/Contract.antt =====
-- `handle_client` of libs/planten_fs_ramfs/src/server.rs against the contract,
-- one message and a whole connection.
use planten.Base.{ℕ, zero, suc, ◌≡◌}
use planten.Base.{ok, inl, inr, Str, [], ◌++◌, refl}
use planten.Base.{length, Res-cases, Returns-eq_ok}
use planten.Wire.Types.{RawMessage}
use planten.Wire.Frame.{read_from, build_frame}
use planten.Wire.Messages.{tflush, tauth}
use planten.Ramfs.Server.State.{Server, Reply}
use planten.Ramfs.Server.Handlers.{handle_auth, handle_flush}
use planten.Ramfs.Server.Absolute.{FidsAbsolute}
use planten.Ramfs.Server.Step.{Step, looked, refused, Step-FidsAbsolute, Ensures}
use planten.Ramfs.Server.Refines.{handle_version-Step, handle_clunk-Step, handle_clone-Step}
use planten.Ramfs.Server.Refines.{handle_attach-Step, handle_walk-Step, handle_open-Step}
use planten.Ramfs.Server.Reads.{handle_stat-Step, handle_read-Step}
use planten.Ramfs.Server.Changes.{handle_write-Step, handle_wstat-Step}
use planten.Ramfs.Server.Changes.{handle_remove-Step, handle_create-Step}
use planten.Ramfs.Server.Dispatch.{Env, dispatch, dispatch-cases, serve, handle_client}

handle_flush-Step :
    (m : RawMessage) (s : Server) → m.msg_type ≡ tflush → Ensures (Step m s) (handle_flush m.body s)
unfolding handle_flush
handle_flush-Step m s e = looked (rw e refl)

handle_auth-Step :
    (m : RawMessage) (s : Server) → m.msg_type ≡ tauth → Ensures (Step m s) (handle_auth m.body s)
unfolding handle_auth
handle_auth-Step m s e = looked (rw e refl)

dispatch-Ensures :
    (v : Env) (m : RawMessage) (s : Server) → FidsAbsolute s → Ensures (Step m s) (dispatch v m s)
dispatch-Ensures v m s h = dispatch-cases v m s (Ensures (Step m s)) (record {
  version = handle_version-Step m s;
  attach = handle_attach-Step v.hash m s;
  walk = λ e. handle_walk-Step v.hash m s e h;
  opening = handle_open-Step v.hash m s;
  read = handle_read-Step v.hash v.checks m s;
  write = handle_write-Step v.checks (v.now 0) m s;
  wstat = handle_wstat-Step v.text m s;
  flush = handle_flush-Step m s;
  remove = handle_remove-Step m s;
  clunk = handle_clunk-Step m s;
  stat = handle_stat-Step v.hash m s;
  clone = handle_clone-Step m s;
  create = handle_create-Step v.hash v.now m s;
  auth = handle_auth-Step m s;
  other = refused refl;
})

-- Whatever message is answered, from a state whose fids stand for absolute paths, the reply and the state
-- afterwards are such as the contract allows for that message.
pub dispatch-Step :
    (v : Env) (m : RawMessage) (s s' : Server) (r : Reply)
    → FidsAbsolute s
    → dispatch v m s ≡ ok (r, s')
    → Step m s r s'
dispatch-Step v m s s' r h e =
    Returns-eq_ok (λ (x : Reply × Server). Step m s x.0 x.1) (dispatch v m s) (r, s')
      (dispatch-Ensures v m s h) e

-- Steps for the first messages of an input, one for each and in their order, and the frames of the replies.
pub data Steps : Str → Server → Str → Server → Type 0 where
  done : {input : Str} {s : Server} → Steps input s [] s
  more :
      {input rest sent : Str} {m : RawMessage} {r : Reply} {s t u : Server}
      → read_from input ≡ ok (m, rest)
      → Step m s r t
      → Steps rest t sent u
      → Steps input s (build_frame r.msg_type m.tag r.body ++ sent) u

pub Steps-FidsAbsolute :
    {input sent : Str} {s t : Server} → Steps input s sent t → FidsAbsolute s → FidsAbsolute t
Steps-FidsAbsolute done h = h
Steps-FidsAbsolute (more e st r) h = Steps-FidsAbsolute r (Step-FidsAbsolute st h)

serve-Steps :
    (envs : ℕ → Env) (fuel : ℕ) (input : Str) (s : Server)
    → FidsAbsolute s
    → Steps input s (serve envs fuel input s).sent (serve envs fuel input s).server
unfolding serve
serve-Steps envs zero input s h = done
serve-Steps envs (suc fuel) input s h = elim (Res-cases (read_from input)) [
  | inl ((m, rest), e) ↦ elim (Res-cases (dispatch (envs fuel) m s)) [
    | inl ((r, s'), d) ↦
        let st = dispatch-Step (envs fuel) m s s' r h d in
        let later = serve-Steps envs fuel rest s' (Step-FidsAbsolute st h) in
        rw (e, serve, d) (more e st later)
    | inr (inl (x, d)) ↦ rw (e, serve, d) done
    | inr (inr d) ↦ rw (e, serve, d) done
  ]
  | inr (inl (x, e)) ↦ rw (e, serve) done
  | inr (inr e) ↦ rw (e, serve) done
]

-- From a state whose fids stand for absolute paths, a whole connection, on any input and however it ends,
-- takes one step of the contract `Step` for each message that it answers, in the order in which they are
-- read from the input: a step that the message's type, fid and arguments allow, and of its reply. The bytes
-- sent are the frames of these replies, with the messages' tags, and every fid is left with an absolute path.
pub handle_client-Steps :
    (envs : ℕ → Env) (input : Str) (s : Server)
    → FidsAbsolute s
    → Steps input s (handle_client envs input s).sent (handle_client envs input s).server
      × FidsAbsolute (handle_client envs input s).server
unfolding handle_client
handle_client-Steps envs input s h =
    let r = serve-Steps envs (suc (length input)) input s h in (r, Steps-FidsAbsolute r h)
