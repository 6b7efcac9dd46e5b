-- ===== src/Client/Peer.antt =====
-- `P9Client` of libs/planten_9p/src/lib.rs with the server of libs/planten_fs_ramfs/src/server.rs at the
-- other end of its stream.
use planten.Base.{ℕ, zero, suc, ◌+◌, ◌%◌, ◌^◌, ◌<◌, ◌≡◌, refl, arith, Res, ok, [], Str}
use planten.Base.{length, append-nil, eq_self}
use planten.Wire.Bytes.{le_bytes, read_exact}
use planten.Wire.Frame.{build_frame, read_from}
use planten.Wire.Framing.{framed, read_from-build_frame}
use planten.Ramfs.Server.State.{Server, Reply}
use planten.Ramfs.Server.Dispatch.{Env, dispatch, serve, handle_client, disconnected}
use planten.Client.{P9Client, send_and_wait, accept_response, ensure_msg_type, call}

-- The frames that the server sends while it handles what has arrived, and its state afterwards.
abbrev pub ramfs_peer : Env → Str → Server → Str × Server
ramfs_peer v input s = let run = handle_client (λ n. v) input s in (run.sent, run.server)

-- At the end of what arrived the server waits.
serve-end :
    (v : Env) (n : ℕ) (s : Server)
    → 0 < n
    → serve (λ k. v) n [] s ≡ record { sent = []; server = s; end = disconnected }
unfolding serve read_from read_exact
serve-end v zero s h = absurd (omega arith)
serve-end v (suc n) s h = refl

pub build_frame_ne : (t tag : ℕ) (body : Str) → 0 < length (build_frame t tag body)
unfolding build_frame le_bytes
build_frame_ne t tag body = omega arith

pub read_frame :
    (t tag : ℕ) (body : Str)
    → tag < 2 ^ 16
    → 7 + length body < 2 ^ 32
    → read_from (build_frame t tag body) ≡ ok (framed t tag body, [])
read_frame t tag body ht hb = rw append-nil at (read_from-build_frame t tag body [] ht hb)

-- One frame is answered by one frame.
handle_client-build_frame :
    (v : Env) (t tag : ℕ) (body : Str) (s s' : Server) (r : Reply)
    → tag < 2 ^ 16
    → 7 + length body < 2 ^ 32
    → dispatch v (framed t tag body) s ≡ ok (r, s')
    → handle_client (λ n. v) (build_frame t tag body) s
      ≡ record { sent = build_frame r.msg_type tag r.body; server = s'; end = disconnected }
unfolding handle_client serve
handle_client-build_frame v t tag body s s' r ht hb d =
    rw
      (
        read_frame t tag body ht hb,
        handle_client,
        serve,
        d,
        serve-end v (length (build_frame t tag body)) s' (build_frame_ne t tag body),
        append-nil,
      )
      refl

abbrev pub client_of : Server → ℕ → P9Client Server
client_of s tag = record { pending = []; peer = s; next_tag = tag }

-- A request that the server answers with the expected type, within the bounds of a frame, gives the client
-- the result that the body of the reply holds.
pub call-ramfs_peer :
    {A : Type 0} (v : Env) (t rt tag : ℕ) (body reply_body : Str) (result : Str → Res A)
    (s s' : Server)
    → tag < 2 ^ 16
    → 7 + length body < 2 ^ 32
    → 7 + length reply_body < 2 ^ 32
    → dispatch v (framed t tag body) s ≡ ok (record { msg_type = rt; body = reply_body }, s')
    → call (ramfs_peer v) t rt body result (client_of s tag)
      ≡ (result reply_body, client_of s' ((tag + 1) % 2 ^ 16))
unfolding call send_and_wait accept_response ensure_msg_type
call-ramfs_peer v t rt tag body reply_body result s s' ht hb hr d =
    rw
      (
        handle_client-build_frame v t tag body s s' (record { msg_type = rt; body = reply_body }) ht
            hb d,
        read_frame rt tag reply_body ht hr,
        eq_self,
        eq_self,
      )
      refl
