-- ===== src/Ramfs/Server/Threads/Examples.antt =====
-- Two connections of libs/planten_fs_ramfs/src/server.rs: the first attaches fid 1 and removes `/home/note`,
-- the second attaches its own fid 1 and walks to the same file, which is then gone.
use planten.Base.{suc, ◌≡◌, refl, false, none, List, [], ◌∷◌, ◌++◌, Str, bytes, length}
use planten.Wire.Frame.{build_frame}
use planten.Wire.Messages.{tattach, twalk, tremove}
use planten.Wire.Encode.{encode_attach_body, encode_walk_body, encode_remove_body}
use planten.Wire.Bytes.{le_bytes, from_le_bytes, read_exact}
use planten.Wire.Frame.{read_from, read_body, body_length}
use planten.Wire.Utf8.{is_utf8}
use planten.Wire.Decode.{decode_u16, decode_u32, decode_string}
use planten.Wire.Encode.{encode_string, encode_names}
use planten.Fs.FilePath.{components, split, non_empty}
use planten.Ramfs.Tree.{stat, stat_at}
use planten.Ramfs.Server.Handlers.{handle_attach, attach_root}
use planten.Ramfs.Server.Dispatch.{dispatch}
use planten.Ramfs.Examples.{small}
use planten.Ramfs.Server.Dispatch.{handle_client}
use planten.Ramfs.Server.Examples.{an_env, small-IsWellFormed}
use planten.Ramfs.Server.Threads.{
  Threads, Event, incoming, accept_failed, turn, accepted, listening, server_of, run_server, happen,
  turn_at, advance, received, answered,
}
use planten.Ramfs.Server.Threads.Interleaved.{IsSound, run_server-IsSound}
use planten.Ramfs.Server.Threads.Turns.{turns, Served, run_server-handle_client}

abbrev attach : Str
attach = build_frame tattach 0 (encode_attach_body 1 none (bytes "user") [])

abbrev walk_to_note : Str
walk_to_note = build_frame twalk 1 (encode_walk_body 1 2 (bytes "home" ∷ bytes "note" ∷ []))

abbrev removal : Str
removal = attach ++ (walk_to_note ++ build_frame tremove 2 (encode_remove_body 2))

abbrev look : Str
look = attach ++ walk_to_note

abbrev interleaved : List Event
interleaved =
    incoming removal
    ∷ turn 0 an_env
    ∷ incoming look
    ∷ accept_failed
    ∷ turn 1 an_env
    ∷ turn 0 an_env
    ∷ turn 0 an_env
    ∷ turn 1 an_env
    ∷ []

run_server-IsSound_example : IsSound (run_server interleaved (listening small))
run_server-IsSound_example = run_server-IsSound interleaved small small-IsWellFormed

abbrev with_removal : Threads
with_removal = run_server (incoming removal ∷ turn 0 an_env ∷ []) (listening small)

removal_clean : with_removal.poisoned ≡ false
unfolding run_server happen turn_at advance received answered dispatch read_from read_body
    body_length read_exact build_frame le_bytes from_le_bytes handle_attach attach_root decode_u32
    decode_u16 decode_string is_utf8 encode_attach_body encode_string stat stat_at components split
    non_empty encode_walk_body encode_names encode_remove_body
removal_clean = refl

run_server-handle_client_example :
    Served with_removal.connections []
      (handle_client (λ n. an_env) look (server_of (accepted look) with_removal.ramfs))
      (run_server
        (incoming look ∷ turns (length with_removal.connections) (λ n. an_env) (suc (length look)))
        with_removal)
run_server-handle_client_example =
    run_server-handle_client (λ n. an_env) look with_removal removal_clean
