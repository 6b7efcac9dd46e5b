-- ===== src/Ramfs/Server/Examples.antt =====
-- The server of libs/planten_fs_ramfs/src/server.rs at small inputs: fid 1 is `/home/note`, open for
-- reading and writing, and fid 2 is `/`.
use planten.Base.{ℕ, ◌+◌, ◌^◌, ◌-◌, ◌≡◌, ◌≢◌, refl, arith, Bool, true, false, none, some}
use planten.Base.{
  ok, panic, List, [], ◌∷◌, ◌++◌, Str, bytes, str_eq, length, lookup, insert, remove, All, not,
  ◌&&◌, ◌==◌,
}
use planten.Base.{Bool-cases, inl, inr}
use planten.Wire.Bytes.{le_bytes, read_exact, from_le_bytes}
use planten.Wire.Decode.{decode_u32}
use planten.Wire.Utf8.{is_utf8}
use planten.Wire.Types.{RawMessage, Qid}
use planten.Wire.Encode.{encode_walk_body, encode_write_body}
use planten.Wire.Messages.{rwalk, rerror, twrite, tclunk}
use planten.Fs.Children.{get}
use planten.Fs.FilePath.{components, split, non_empty, slash, NoSlash}
use planten.Ramfs.Examples.{note, small, note_path, note_there, note_below}
use planten.Ramfs.Tree.{stat_at}
use planten.Ramfs.Server.Resolve.{resolve_step, parent_path, trim_end, rfind}
use planten.Ramfs.Server.State.{FidState, new_fid, Server, mode_allows_write}
use planten.Ramfs.Server.State.{encode_error}
use planten.Ramfs.Server.Handlers.{concat_qids, handle_walk, handle_clunk}
use planten.Ramfs.Server.Files.{handle_write}
use planten.Ramfs.Server.Absolute.{FidsAbsolute}
use planten.Ramfs.Server.Step.{insert-FidsAbsolute}
use planten.Ramfs.Server.Dispatch.{Env, dispatch, handle_client, out_of_fuel}
use planten.Ramfs.Server.Contract.{Steps, handle_client-Steps}
use planten.Ramfs.WellFormed.{IsWellFormed}
use planten.Ramfs.Server.Total.{handle_client-ends}
use planten.Ramfs.Server.Safe.{MayPanic, dispatch-panic}
use planten.Ramfs.Server.Overflow.{handle_write-panic}
use planten.Ramfs.Server.Names.{IsPlain}
use planten.Ramfs.Server.Walk.{handle_walk-found, handle_walk-missing}

abbrev a_hash : Str → ℕ → ℕ
a_hash path mtime = length path + mtime

abbrev no_qid : Qid
no_qid = record { qtype = 0; version = 0; path = 0 }

abbrev note_fid : FidState
note_fid = record { path = note_path; qid = no_qid; open_mode = some 2 }

abbrev root_fid : FidState
root_fid = new_fid (bytes "/") no_qid

abbrev a_server : Server
a_server = record { fid_states = (1, note_fid) ∷ (2, root_fid) ∷ []; ramfs = small }

abbrev empty_server : Server
empty_server = record { fid_states = []; ramfs = small }

empty_server-FidsAbsolute : FidsAbsolute empty_server
unfolding lookup
empty_server-FidsAbsolute = record { at = λ k st e. cc }

a_server-FidsAbsolute : FidsAbsolute a_server
unfolding insert
a_server-FidsAbsolute =
    insert-FidsAbsolute (record { fid_states = (1, root_fid) ∷ (2, root_fid) ∷ []; ramfs = small })
      1 note_fid
      (insert-FidsAbsolute (record { fid_states = (1, root_fid) ∷ []; ramfs = small }) 2 root_fid
        (insert-FidsAbsolute empty_server 1 root_fid empty_server-FidsAbsolute refl) refl)
      refl

note_used : lookup 1 a_server.fid_states ≡ some note_fid
unfolding lookup
note_used = refl

root_used : lookup 2 a_server.fid_states ≡ some root_fid
unfolding lookup
root_used = refl

abbrev pub an_env : Env
an_env = record { checks = false; hash = a_hash; text = λ e. []; now = λ d. 50 + d }

up_from_note : resolve_step note_path (bytes "..") ≡ some (bytes "/home")
unfolding resolve_step parent_path trim_end rfind str_eq
up_from_note = refl

abbrev clunk_message : RawMessage
clunk_message = record { size = 11; msg_type = tclunk; tag = 3; body = 1 ∷ 0 ∷ 0 ∷ 0 ∷ [] }

clunked :
    dispatch an_env clunk_message a_server
    ≡ ok (record { msg_type = 121; body = [] }, record a_server { fid_states = (2, root_fid) ∷ [] })
unfolding dispatch handle_clunk remove decode_u32 read_exact from_le_bytes
clunked = refl

pub small-IsWellFormed : IsWellFormed small.root
unfolding IsWellFormed get str_eq
small-IsWellFormed = (refl, (refl, ((refl, (refl, (tt, (refl, (refl, (tt, tt)))))), tt)))

-- A clunk of fid 1, then the beginning of a message.
abbrev an_input : Str
an_input = 11 ∷ 0 ∷ 0 ∷ 0 ∷ 120 ∷ 3 ∷ 0 ∷ 1 ∷ 0 ∷ 0 ∷ 0 ∷ 11 ∷ []

handle_client-Steps_example :
    Steps an_input a_server
      (handle_client (λ n. an_env) an_input a_server).sent
      (handle_client (λ n. an_env) an_input a_server).server
    × FidsAbsolute (handle_client (λ n. an_env) an_input a_server).server
handle_client-Steps_example =
    handle_client-Steps (λ n. an_env) an_input a_server a_server-FidsAbsolute

handle_client-ends_example : (handle_client (λ n. an_env) an_input a_server).end ≢ out_of_fuel
handle_client-ends_example = handle_client-ends (λ n. an_env) an_input a_server

handle_write-panic_example :
    handle_write false 9 (encode_write_body 1 (2 ^ 64 - 1) (bytes "yo")) a_server ≡ panic
unfolding mode_allows_write
handle_write-panic_example =
    handle_write-panic false 9 1 (2 ^ 64 - 1) 2 (bytes "yo") a_server note_fid note note_used refl
      refl note_below note_there (omega arith) (omega arith) (omega arith) (omega arith)
      (omega arith)

abbrev huge_write : RawMessage
huge_write = record {
  size = 25;
  msg_type = twrite;
  tag = 3;
  body = encode_write_body 1 (2 ^ 64 - 1) (bytes "yo");
}

huge_write-panics : dispatch an_env huge_write a_server ≡ panic
unfolding dispatch mode_allows_write
huge_write-panics =
    handle_write-panic false 50 1 (2 ^ 64 - 1) 2 (bytes "yo") a_server note_fid note note_used refl
      refl note_below note_there (omega arith) (omega arith) (omega arith) (omega arith)
      (omega arith)

dispatch-panic_example : MayPanic twrite
dispatch-panic_example = dispatch-panic an_env huge_write a_server huge_write-panics

abbrev pub note_names : List Str
note_names = bytes "home" ∷ bytes "note" ∷ []

abbrev lost_names : List Str
lost_names = bytes "home" ∷ bytes "lost" ∷ []

abbrev no_slashes : Str → Bool
no_slashes [] = true
no_slashes (c ∷ s) = not (c == slash) && no_slashes s

no_slashes-NoSlash : (s : Str) → no_slashes s ≡ true → NoSlash s
no_slashes-NoSlash [] h = tt
no_slashes-NoSlash (c ∷ s) h = elim (Bool-cases (c == slash)) [
  | inl e ↦ cc (rw e at h)
  | inr e ↦ (λ p. ground arith, no_slashes-NoSlash s (rw e at h))
]

IsPlain-home : IsPlain (bytes "home")
unfolding str_eq is_utf8
IsPlain-home = record {
  component = no_slashes-NoSlash (bytes "home") refl;
  not_dot = refl;
  not_dots = refl;
  fits = record { len = omega arith; utf8 = refl };
}

IsPlain-note : IsPlain (bytes "note")
unfolding str_eq is_utf8
IsPlain-note = record {
  component = no_slashes-NoSlash (bytes "note") refl;
  not_dot = refl;
  not_dots = refl;
  fits = record { len = omega arith; utf8 = refl };
}

IsPlain-lost : IsPlain (bytes "lost")
unfolding str_eq is_utf8
IsPlain-lost = record {
  component = no_slashes-NoSlash (bytes "lost") refl;
  not_dot = refl;
  not_dots = refl;
  fits = record { len = omega arith; utf8 = refl };
}

pub note_names-IsPlain : All IsPlain note_names
note_names-IsPlain = (IsPlain-home, (IsPlain-note, tt))

lost_names-IsPlain : All IsPlain lost_names
lost_names-IsPlain = (IsPlain-home, (IsPlain-lost, tt))

found_by_names : stat_at (components (bytes "/") ++ note_names) small.root ≡ some note
unfolding stat_at components split non_empty get str_eq
found_by_names = refl

root_there : stat_at (components (bytes "/")) small.root ≡ some small.root
unfolding stat_at components split non_empty
root_there = refl

names_missing : stat_at (components (bytes "/") ++ lost_names) small.root ≡ none
unfolding stat_at components split non_empty get str_eq
names_missing = refl

handle_walk-found_example :
    (p : Str) × (qs : List Qid) × (last : Qid) × (handle_walk a_hash
        (encode_walk_body 2 3 note_names)
        a_server
      ≡ ok (
        record { msg_type = rwalk; body = le_bytes 2 2 ++ concat_qids qs },
        record a_server { fid_states = insert 3 (new_fid p last) a_server.fid_states },
      ))
    × (components p ≡ components (bytes "/") ++ note_names)
    × (length qs ≡ 2)
handle_walk-found_example =
    handle_walk-found a_hash 2 3 note_names a_server root_fid note_names-IsPlain (omega arith)
      (omega arith) (omega arith) root_used note found_by_names

handle_walk-missing_example :
    (message : Str) × (handle_walk a_hash (encode_walk_body 2 3 lost_names) a_server
      ≡ ok (record { msg_type = rerror; body = encode_error message }, a_server))
handle_walk-missing_example =
    handle_walk-missing a_hash 2 3 lost_names a_server root_fid lost_names-IsPlain (omega arith)
      (omega arith) (omega arith) root_used small.root root_there names_missing
