-- ===== src/Client/Session.antt =====
-- `P9Client` of libs/planten_9p/src/lib.rs with one of the servers that share their loop at the other end, and
-- the client of tests/proc_client/src/main.rs against the server of libs/planten_fs_proc/src/server.rs.
use planten.Base.{ℕ, zero, suc, ◌+◌, ◌%◌, ◌^◌, ◌<◌, ◌≡◌, refl, arith, Bool, none, Res, ok}
use planten.Base.{[], ◌∷◌, Str, bytes, length, append-nil, eq_self, insert, remove, lookup, str_eq}
use planten.Wire.Types.{RawMessage}
use planten.Wire.Bytes.{le_bytes, from_le_bytes, read_exact}
use planten.Wire.Utf8.{is_utf8}
use planten.Wire.Messages.{tversion, tattach, twalk, tclunk, rversion, rattach, rwalk, rclunk}
use planten.Wire.Decode.{decode_u16, decode_u32, decode_string}
use planten.Wire.Encode.{
  encode_version_body, encode_attach_body, encode_walk_body, encode_names, encode_clunk_body,
  encode_string, encode_qid_bytes,
}
use planten.Wire.Frame.{build_frame, read_from}
use planten.Wire.Framing.{framed}
use planten.Ramfs.Server.State.{new_fid, Reply}
use planten.Ramfs.Server.Handlers.{concat_qids}
use planten.Ramfs.Server.Dispatch.{disconnected}
use planten.Served.View.{FsView, negotiate, read_names, walk_path}
use planten.Served.Loop.{serve_all, serve_stream}
use planten.Served.Opening.{
  Fids, zero_qid, version_reply, attach_reply, walk_reply, walked, clunk_reply, answer,
}
use planten.Client.{
  P9Client, send_and_wait, accept_response, ensure_msg_type, call, version_result, walk_result,
  skip_qids, no_result,
}
use planten.Client.Operations.{version, attach, walk, clunk}
use planten.Client.Peer.{read_frame, build_frame_ne}
use planten.Client.Programs.{visit_procfs, visit_if, visit_end}

module _ {S : Type 0} (handle : RawMessage → S → Res (Reply × S)) where
  -- The frames that the server sends while it handles what has arrived, and its state afterwards.
  abbrev pub session_peer : Str → S → Str × S
  session_peer input s =
      let session = serve_stream (λ n m s. handle m s) input s in (session.sent, session.state)

  abbrev pub connected_to : S → ℕ → P9Client S
  connected_to s tag = record { pending = []; peer = s; next_tag = tag }

  serve_all-end :
      (n : ℕ) (s : S)
      → 0 < n
      → serve_all (λ n m s. handle m s) n [] s ≡ record { sent = []; state = s; end = disconnected }
  unfolding serve_all read_from read_exact
  serve_all-end zero s h = absurd (omega arith)
  serve_all-end (suc n) s h = refl

  serve_stream-build_frame :
      (t tag : ℕ) (body : Str) (s s' : S) (r : Reply)
      → tag < 2 ^ 16
      → 7 + length body < 2 ^ 32
      → handle (framed t tag body) s ≡ ok (r, s')
      → serve_stream (λ n m s. handle m s) (build_frame t tag body) s
        ≡ record { sent = build_frame r.msg_type tag r.body; state = s'; end = disconnected }
  unfolding serve_stream serve_all
  serve_stream-build_frame t tag body s s' r ht hb d =
      rw
        (
          read_frame t tag body ht hb,
          serve_all,
          d,
          serve_all-end (length (build_frame t tag body)) s' (build_frame_ne t tag body),
          append-nil,
        )
        refl

  -- As `call-ramfs_peer`.
  call-session_peer :
      {A : Type 0} (t rt tag : ℕ) (body reply_body : Str) (result : Str → Res A) (s s' : S)
      → tag < 2 ^ 16
      → 7 + length body < 2 ^ 32
      → 7 + length reply_body < 2 ^ 32
      → handle (framed t tag body) s ≡ ok (record { msg_type = rt; body = reply_body }, s')
      → call session_peer t rt body result (connected_to s tag)
        ≡ (result reply_body, connected_to s' ((tag + 1) % 2 ^ 16))
  unfolding call send_and_wait accept_response ensure_msg_type
  call-session_peer t rt tag body reply_body result s s' ht hb hr d =
      rw
        (
          serve_stream-build_frame t tag body s s' (record { msg_type = rt; body = reply_body }) ht
              hb d,
          read_frame rt tag reply_body ht hr,
          eq_self,
          eq_self,
        )
        refl

module _ (view : FsView) (checks : Bool) where
  abbrev pub procfs_peer : Str → Fids → Str × Fids
  procfs_peer = session_peer (answer view checks)

  abbrev pub visitor : Fids → ℕ → P9Client Fids
  visitor = connected_to (answer view checks)

  abbrev attached_fid : Fids
  attached_fid = (0, new_fid (bytes "/") zero_qid) ∷ []

  versioned :
      version procfs_peer 8192 (bytes "9P2000") (visitor [] 0) ≡ (ok (bytes "9P2000"), visitor [] 1)
  unfolding version version_result version_reply negotiate le_bytes decode_u32 decode_string
      read_exact from_le_bytes decode_u16 is_utf8 encode_version_body answer encode_string str_eq
  versioned =
      call-session_peer (answer view checks) tversion rversion 0 _ (negotiate 8192 (bytes "9P2000"))
        version_result [] [] (omega arith) (omega arith) (omega arith) refl

  attached :
      attach procfs_peer 0 none (bytes "user") (bytes "none") (visitor [] 1)
      ≡ (ok tt, visitor attached_fid 2)
  unfolding attach attach_reply le_bytes decode_u32 decode_string read_exact from_le_bytes
      decode_u16 is_utf8 encode_attach_body encode_string insert encode_qid_bytes answer
  attached =
      call-session_peer (answer view checks) tattach rattach 1 _ (encode_qid_bytes zero_qid)
        no_result [] attached_fid (omega arith) (omega arith) (omega arith) refl

  walked_nowhere :
      walk procfs_peer 0 1 [] (visitor attached_fid 2)
      ≡ (ok 0, visitor (insert 1 (new_fid (bytes "/") zero_qid) attached_fid) 3)
  unfolding walk walk_reply walked walk_path read_names le_bytes decode_u32 read_exact from_le_bytes
      decode_u16 encode_walk_body encode_names insert concat_qids walk_result skip_qids lookup
      answer
  walked_nowhere =
      call-session_peer (answer view checks) twalk rwalk 2 _ (le_bytes 2 0) walk_result attached_fid
        (insert 1 (new_fid (bytes "/") zero_qid) attached_fid) (omega arith) (omega arith)
        (omega arith) refl

  clunked :
      (fids : Fids) → clunk procfs_peer 0 (visitor fids 3) ≡ (ok tt, visitor (remove 0 fids) 4)
  unfolding clunk clunk_reply le_bytes decode_u32 read_exact from_le_bytes encode_clunk_body answer
  clunked fids =
      call-session_peer (answer view checks) tclunk rclunk 3 _ [] no_result fids (remove 0 fids)
        (omega arith) (omega arith) (omega arith) refl

  -- Whatever processes the server of procfs shows, and in a build with overflow checks or without: its client
  -- succeeds and has visited none of them, as its walk over no name is answered with no qid.
  pub visit_procfs-nothing :
      visit_procfs procfs_peer (visitor [] 0)
      ≡ ok (record { version = bytes "9P2000"; pids = 0; content = none })
  unfolding visit_procfs visit_if visit_end
  visit_procfs-nothing =
      rw
        (
          versioned,
          attached,
          walked_nowhere,
          visit_if,
          visit_end,
          clunked (insert 1 (new_fid (bytes "/") zero_qid) attached_fid),
        )
        refl
