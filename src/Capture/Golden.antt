-- ===== src/Capture/Golden.antt =====
-- `main` of tools/capture_golden/src/main.rs: frames of the server of the in-memory file system.
use planten.Base.{ℕ, Res, ok, ◌>>=◌, none, List, [], ◌∷◌, ◌++◌, Str, bytes, length}
use planten.Wire.Types.{RawMessage, Stat}
use planten.Wire.Messages.{tversion, tauth, tattach, twalk, topen, tread, tstat, twrite, twstat}
use planten.Wire.Messages.{tremove, tflush, tclone}
use planten.Wire.Encode.{encode_version_body, encode_auth_body, encode_attach_body}
use planten.Wire.Encode.{encode_walk_body, encode_open_body, encode_read_body, encode_write_body}
use planten.Wire.Encode.{encode_stat_body, encode_wstat_body, encode_remove_body}
use planten.Wire.Encode.{encode_flush_body, encode_clone_body}
use planten.Wire.Decode.{decode_stat}
use planten.Ramfs.Tree.{RamFs, new_ramfs, create_file}
use planten.Capture.{TraceRecorder, Files, frame_buf, send, send_with_tag}

-- The file system that the tool serves.
unfoldable pub golden_ramfs : (ℕ → ℕ) → RamFs
golden_ramfs now =
    create_file now (bytes "/readme.txt") (bytes "RAMFS as a 9P server")
      (create_file now (bytes "/hello.txt") (bytes "hello 9p!!") (new_ramfs (now 0)))

-- An exchange, and the files that are written with its two frames.
pub record Exchange : Type 0 where
  pub msg_type : ℕ
  pub body : Str
  pub files : Str → Str → Files

abbrev two : Str → Str → Str → Str → Files
two request_name response_name request response =
    (request_name, request) ∷ (response_name, response) ∷ []

-- `write_frames` with both frames, and a file with the reply alone.
abbrev both : Str → Str → Str → Str → Files
both exchange_name response_name request response =
    (exchange_name, request ++ response) ∷ (response_name, response) ∷ []

abbrev exchange : ℕ → Str → (Str → Str → Files) → Exchange
exchange msg_type body files = record { msg_type = msg_type; body = body; files = files }

unfoldable pub before_stat : List Exchange
before_stat =
    exchange twalk (encode_walk_body 1 2 (bytes "hello.txt" ∷ []))
      (two (bytes "twalk_request.bin") (bytes "walk_response.bin"))
    ∷ exchange topen (encode_open_body 2 2)
        (two (bytes "topen_data_request.bin") (bytes "ropen_data_response.bin"))
    ∷ exchange tread (encode_read_body 2 0 128)
        (both (bytes "read_exchange.bin") (bytes "read_response.bin"))
    ∷ exchange topen (encode_open_body 1 0)
        (two (bytes "topen_root_request.bin") (bytes "ropen_root_response.bin"))
    ∷ exchange tread (encode_read_body 1 0 128)
        (two (bytes "tread_dir_request.bin") (bytes "dir_read_response.bin"))
    ∷ []

abbrev content : Str
content = bytes "hello world"

unfoldable pub after_stat : Stat → List Exchange
after_stat stat =
    exchange twrite (encode_write_body 2 0 content)
      (both (bytes "write_exchange.bin") (bytes "rwrite_response.bin"))
    ∷ exchange twstat (encode_wstat_body 2 (record stat { length = length content }))
        (two (bytes "twstat_request.bin") (bytes "rwstat_response.bin"))
    ∷ exchange tremove (encode_remove_body 2)
        (both (bytes "remove_exchange.bin") (bytes "rremove_response.bin"))
    ∷ exchange twalk (encode_walk_body 1 3 (bytes "missing.txt" ∷ []))
        (two (bytes "twalk_error_request.bin") (bytes "rerror_walk.bin"))
    ∷ exchange twalk (encode_walk_body 1 4 (bytes "hello.txt" ∷ bytes "missing.txt" ∷ []))
        (two (bytes "twalk_multi_request.bin") (bytes "rerror_walk_multi.bin"))
    ∷ exchange tflush (encode_flush_body 1)
        (two (bytes "tflush_request.bin") (bytes "rflush_response.bin"))
    ∷ exchange tauth (encode_auth_body 0 (bytes "user") [])
        (two (bytes "tauth_request.bin") (bytes "rauth_response.bin"))
    ∷ []

unfoldable pub after_clone : List Exchange
after_clone =
    exchange tstat (encode_stat_body 99)
      (two (bytes "tstat_error_request.bin") (bytes "rerror_tstat.bin"))
    ∷ exchange tread (encode_read_body 99 0 1)
        (two (bytes "tread_oob_request.bin") (bytes "rerror_oob.bin"))
    ∷ []

module _ {C : Type 0} (answer : Str → C → Str × C) where
  -- `capture_handshake`, whose frames go into one file.
  unfoldable pub capture_handshake : TraceRecorder C → Res (Str × TraceRecorder C)
  capture_handshake r = do
    ((version_req, version_resp), r) ←
        send answer tversion (encode_version_body 131072 (bytes "9P2000")) r
    ((attach_req, attach_resp), r) ←
        send answer tattach (encode_attach_body 1 none (bytes "user") []) r
    ok (version_req ++ (frame_buf version_resp ++ (attach_req ++ frame_buf attach_resp)), r)

  unfoldable pub capture_exchange :
      ℕ → Str → TraceRecorder C → Res ((Str × Str × RawMessage) × TraceRecorder C)
  capture_exchange msg_type body r = do
    ((request, response), r) ← send answer msg_type body r
    ok ((request, frame_buf response, response), r)

  unfoldable pub capture_exchange_with_tag :
      ℕ → Str → ℕ → TraceRecorder C → Res ((Str × Str × RawMessage) × TraceRecorder C)
  capture_exchange_with_tag msg_type body tag r = do
    ((request, response), r) ← send_with_tag answer msg_type body tag r
    ok ((request, frame_buf response, response), r)

  -- Exchanges one after another, with their files.
  unfoldable pub capture_exchanges : List Exchange → TraceRecorder C → Res (Files × TraceRecorder C)
  capture_exchanges [] r = ok ([], r)
  capture_exchanges (e ∷ es) r = do
    ((request, response, message), r) ← capture_exchange e.msg_type e.body r
    (others, r) ← capture_exchanges es r
    ok (e.files request response ++ others, r)

  unfoldable pub capture_golden : TraceRecorder C → Res (Files × TraceRecorder C)
  capture_golden r = do
    (handshake, r) ← capture_handshake r
    (first, r) ← capture_exchanges before_stat r
    ((stat_req, stat_resp, stat_msg), r) ← capture_exchange tstat (encode_stat_body 2) r
    (stat, cursor) ← decode_stat stat_msg.body
    (second, r) ← capture_exchanges (after_stat stat) r
    ((clone_req, clone_resp, clone_msg), r) ←
        capture_exchange_with_tag tclone (encode_clone_body 1 5) 0x9999 r
    (third, r) ← capture_exchanges after_clone r
    ok (
      ((bytes "handshake.bin", handshake) ∷ [])
          ++ (first
              ++ (two (bytes "tstat_request.bin") (bytes "rstat_response.bin") stat_req stat_resp
                  ++ (second
                      ++ (two (bytes "tclone_request.bin") (bytes "rclone_response.bin") clone_req
                            clone_resp
                          ++ third)))),
      r,
    )
