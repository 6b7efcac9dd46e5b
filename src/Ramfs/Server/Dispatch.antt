-- ===== src/Ramfs/Server/Dispatch.antt =====
-- `handle_client` of libs/planten_fs_ramfs/src/server.rs: the loop over the messages of a connection.
use planten.Base.{
  ℕ, zero, suc, ◌≡◌, Bool, Bool-cases, inl, inr, ==→eq, ok, err, panic, if◌then◌else◌,
}
use planten.Base.{◌==◌, [], ◌++◌, Str, bytes, length, ErrorKind, unexpected_eof, invalid_data}
use planten.Wire.Types.{RawMessage}
use planten.Wire.Frame.{build_frame, read_from}
use planten.Wire.Messages.{
  tversion, tattach, twalk, topen, tread, twrite, twstat, tflush, tremove, tclunk, tstat, tclone,
  tcreate, tauth,
}
use planten.Ramfs.Server.State.{Server, Handled, send_error}
use planten.Ramfs.Server.Handlers.{
  handle_version, handle_auth, handle_flush, handle_clunk, handle_clone,
}
use planten.Ramfs.Server.Handlers.{handle_attach, handle_walk, handle_open}
use planten.Ramfs.Server.Files.{handle_stat, handle_read, handle_write, handle_wstat, handle_remove}
use planten.Ramfs.Server.Files.{handle_create}

-- What the server takes from its surroundings: the build's overflow checks, the hash of a path and a
-- time, the texts of I/O errors, and the clock while one message is handled.
pub record Env : Type 0 where
  pub checks : Bool
  pub hash : Str → ℕ → ℕ
  pub text : ErrorKind → Str
  pub now : ℕ → ℕ

unfoldable pub dispatch : Env → RawMessage → Server → Handled
dispatch v m s =
    if m.msg_type == tversion
    then handle_version m.body s
    else if m.msg_type == tattach
    then handle_attach v.hash m.body s
    else if m.msg_type == twalk
    then handle_walk v.hash m.body s
    else if m.msg_type == topen
    then handle_open v.hash m.body s
    else if m.msg_type == tread
    then handle_read v.hash v.checks m.body s
    else if m.msg_type == twrite
    then handle_write v.checks (v.now 0) m.body s
    else if m.msg_type == twstat
    then handle_wstat v.text m.body s
    else if m.msg_type == tflush
    then handle_flush m.body s
    else if m.msg_type == tremove
    then handle_remove m.body s
    else if m.msg_type == tclunk
    then handle_clunk m.body s
    else if m.msg_type == tstat
    then handle_stat v.hash m.body s
    else if m.msg_type == tclone
    then handle_clone m.body s
    else if m.msg_type == tcreate
    then handle_create v.hash v.now m.body s
    else if m.msg_type == tauth
    then handle_auth m.body s
    else send_error (bytes "unsupported message") s

-- What holds of every handler's outcome on one message.
pub record Handles (v : Env) (m : RawMessage) (s : Server) (P : Handled → Type 0) : Type 0 where
  pub version : m.msg_type ≡ tversion → P (handle_version m.body s)
  pub attach : m.msg_type ≡ tattach → P (handle_attach v.hash m.body s)
  pub walk : m.msg_type ≡ twalk → P (handle_walk v.hash m.body s)
  pub opening : m.msg_type ≡ topen → P (handle_open v.hash m.body s)
  pub read : m.msg_type ≡ tread → P (handle_read v.hash v.checks m.body s)
  pub write : m.msg_type ≡ twrite → P (handle_write v.checks (v.now 0) m.body s)
  pub wstat : m.msg_type ≡ twstat → P (handle_wstat v.text m.body s)
  pub flush : m.msg_type ≡ tflush → P (handle_flush m.body s)
  pub remove : m.msg_type ≡ tremove → P (handle_remove m.body s)
  pub clunk : m.msg_type ≡ tclunk → P (handle_clunk m.body s)
  pub stat : m.msg_type ≡ tstat → P (handle_stat v.hash m.body s)
  pub clone : m.msg_type ≡ tclone → P (handle_clone m.body s)
  pub create : m.msg_type ≡ tcreate → P (handle_create v.hash v.now m.body s)
  pub auth : m.msg_type ≡ tauth → P (handle_auth m.body s)
  pub other : P (send_error (bytes "unsupported message") s)

if_intro :
    (P : Handled → Type 0) (a b : ℕ) (m n : Handled)
    → (a ≡ b → P m)
    → P n
    → P (if a == b then m else n)
if_intro P a b m n h k = elim (Bool-cases (a == b)) [
  | inl e ↦ rw e (h (==→eq a b e))
  | inr e ↦ rw e k
]

pub dispatch-cases :
    (v : Env) (m : RawMessage) (s : Server) (P : Handled → Type 0)
    → Handles v m s P
    → P (dispatch v m s)
unfolding dispatch
dispatch-cases v m s P h = if_intro P m.msg_type tversion _ _ h.version (
    if_intro P m.msg_type tattach _ _ h.attach (
      if_intro P m.msg_type twalk _ _ h.walk (
        if_intro P m.msg_type topen _ _ h.opening (
          if_intro P m.msg_type tread _ _ h.read (
            if_intro P m.msg_type twrite _ _ h.write (
              if_intro P m.msg_type twstat _ _ h.wstat (
                if_intro P m.msg_type tflush _ _ h.flush (
                  if_intro P m.msg_type tremove _ _ h.remove (
                    if_intro P m.msg_type tclunk _ _ h.clunk (
                      if_intro P m.msg_type tstat _ _ h.stat (
                        if_intro P m.msg_type tclone _ _ h.clone (
                          if_intro P m.msg_type tcreate _ _ h.create
                            (if_intro P m.msg_type tauth _ _ h.auth h.other)))))))))))))

-- How a connection ends: at the end of its stream, with an error, or by a panic of its thread. The
-- fourth is no outcome of the code: the fuel ran out.
pub data End : Type 0 where
  disconnected : End
  failed : ErrorKind → End
  panicked : End
  out_of_fuel : End

-- The bytes that were sent, the state at the end, and how it ended.
pub record Run : Type 0 where
  pub sent : Str
  pub server : Server
  pub end : End

abbrev stop : Server → End → Run
stop s e = record { sent = []; server = s; end = e }

abbrev pub read_error : ErrorKind → End
read_error unexpected_eof = disconnected
read_error invalid_data = failed invalid_data

-- `envs n` is what the server finds around it when it handles the message before the last `n` of fuel.
unfoldable pub serve : (ℕ → Env) → ℕ → Str → Server → Run
serve envs zero input s = stop s out_of_fuel
serve envs (suc fuel) input s = elim (read_from input) [
  | err e ↦ stop s (read_error e)
  | panic ↦ stop s panicked
  | ok (m, rest) ↦ elim (dispatch (envs fuel) m s) [
    | err e ↦ stop s (failed e)
    | panic ↦ stop s panicked
    | ok (r, s') ↦
        let run = serve envs fuel rest s' in
        record run { sent = build_frame r.msg_type m.tag r.body ++ run.sent }
  ]
]

-- A message takes seven bytes of the stream at least, so this fuel is enough.
unfoldable pub handle_client : (ℕ → Env) → Str → Server → Run
handle_client envs input s = serve envs (suc (length input)) input s
