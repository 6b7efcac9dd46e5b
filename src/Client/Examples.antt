-- ===== src/Client/Examples.antt =====
-- The client of libs/planten_9p/src/lib.rs at small inputs.
use planten.Base.{ℕ, ◌≡◌, refl, arith, true, some, ok, [], ◌∷◌, Str, bytes, lookup, take, none}
use planten.Wire.Types.{RawMessage}
use planten.Wire.Bytes.{le_bytes, from_le_bytes, read_exact}
use planten.Wire.Frame.{read_from, read_body, body_length}
use planten.Wire.Messages.{tclunk, rclunk}
use planten.Ramfs.Examples.{note, small, note_path, note_there, note_below}
use planten.Ramfs.Server.State.{FidState, Server, mode_allows_read, mode_allows_write}
use planten.Ramfs.Server.Dispatch.{Env}
use planten.Client.{P9Client, call, no_result, send_and_wait, accept_response, ensure_msg_type}
use planten.Client.Operations.{read, write}
use planten.Client.Peer.{ramfs_peer, client_of}
use planten.Proc.Host.{ProcHost}
use planten.Proc.Methods.{proc_view}
use planten.Client.Programs.{greet_guest, visit_procfs}
use planten.Client.Session.{procfs_peer, visitor, visit_procfs-nothing}
use planten.Client.Guest.{with_fids, root_listing, greet_guest-listing}
use planten.Client.Checked.{call-eq_ok}
use planten.Client.ReadBack.{read-write}

abbrev open_note : FidState
open_note = record {
  path = note_path;
  qid = record { qtype = 0; version = 0; path = 0 };
  open_mode = some 2;
}

abbrev one_fid : Server
one_fid = record { fid_states = (1, open_note) ∷ []; ramfs = small }

open_note_used : lookup 1 one_fid.fid_states ≡ some open_note
unfolding lookup
open_note_used = refl

abbrev quiet : Env
quiet = record { checks = true; hash = λ p t. t; text = λ e. []; now = λ d. d }

read-write_example :
    (s' : Server) × (write (ramfs_peer quiet) 1 1 (bytes "ello") (client_of one_fid 65535)
      ≡ (ok 4, client_of s' 0))
    × (read (ramfs_peer quiet) 1 1 4 (client_of s' 0) ≡ (ok (bytes "ello"), client_of s' 1))
unfolding mode_allows_read mode_allows_write
read-write_example =
    read-write quiet 1 1 2 65535 (bytes "ello") one_fid open_note note open_note_used refl refl refl
      note_below note_there refl (omega arith) (omega arith) (omega arith) (omega arith)

-- An end that answers every frame by the reply to a clunk with tag 7.
abbrev clunked_reply : Str → ℕ → Str × ℕ
clunked_reply frame n = (7 ∷ 0 ∷ 0 ∷ 0 ∷ 121 ∷ 7 ∷ 0 ∷ [], n)

abbrev seventh : P9Client ℕ
seventh = record { pending = []; peer = 0; next_tag = 7 }

clunk_succeeds : (call clunked_reply tclunk rclunk (le_bytes 4 1) no_result seventh).0 ≡ ok tt
unfolding call send_and_wait accept_response ensure_msg_type read_from read_body body_length
    read_exact from_le_bytes
clunk_succeeds = refl

call-eq_ok_example :
    (m : RawMessage) × (rest : Str) × (read_from (7 ∷ 0 ∷ 0 ∷ 0 ∷ 121 ∷ 7 ∷ 0 ∷ []) ≡ ok (m, rest))
    × (m.tag ≡ 7)
    × (m.msg_type ≡ rclunk)
    × (no_result m.body ≡ ok tt)
call-eq_ok_example =
    call-eq_ok clunked_reply tclunk rclunk (le_bytes 4 1) no_result seventh tt clunk_succeeds

greet_guest-listing_example :
    greet_guest (ramfs_peer quiet) (client_of (with_fids quiet small []) 0)
    ≡ ok (record {
      version = bytes "9P2000";
      walked = 0;
      payload = take 256 (root_listing quiet small);
    })
greet_guest-listing_example = greet_guest-listing quiet small refl

abbrev no_processes : ProcHost
no_processes = record { pids = []; process = λ n. none; read_to_string = λ path. none }

visit_procfs-nothing_example :
    visit_procfs
      (procfs_peer (proc_view 0 no_processes) true)
      (visitor (proc_view 0 no_processes) true [] 0)
    ≡ ok (record { version = bytes "9P2000"; pids = 0; content = none })
visit_procfs-nothing_example = visit_procfs-nothing (proc_view 0 no_processes) true
