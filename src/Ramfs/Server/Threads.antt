-- ===== src/Ramfs/Server/Threads.antt =====
-- `run_server` of libs/planten_fs_ramfs/src/server.rs: the threads of several connections over one file
-- system, as a list of what happens in its order. A message is handled in one turn, since a handler takes the
-- lock once, but for the walk, which before that only asks whether the root is there.
use planten.Base.{
  ℕ, zero, suc, Bool, true, false, ◌||◌, ◌==◌, Option, none, some, Res, ok, err, panic,
}
use planten.Base.{if◌then◌else◌, List, [], ◌∷◌, ◌++◌, Str}
use planten.Wire.Types.{RawMessage}
use planten.Wire.Frame.{build_frame, read_from}
use planten.Wire.Messages.{twrite, twstat}
use planten.Ramfs.Tree.{RamFs}
use planten.Ramfs.Server.State.{FidState, Server, Handled}
use planten.Ramfs.Server.Dispatch.{Env, dispatch, End, panicked, failed, read_error}
pub mod Interleaved
pub mod Turns
mod Examples

-- A connection: the bytes that are still to arrive, its fids, what was sent, and how its thread ended.
pub record Connection : Type 0 where
  pub input : Str
  pub fid_states : List (ℕ × FidState)
  pub sent : Str
  pub end : Option End

pub record Threads : Type 0 where
  pub ramfs : RamFs
  pub poisoned : Bool
  pub connections : List Connection

pub data Event : Type 0 where
  incoming : Str → Event
  accept_failed : Event
  turn : ℕ → Env → Event

abbrev pub accepted : Str → Connection
accepted input = record { input = input; fid_states = []; sent = []; end = none }

abbrev pub listening : RamFs → Threads
listening fs = record { ramfs = fs; poisoned = false; connections = [] }

abbrev pub server_of : Connection → RamFs → Server
server_of c fs = record { fid_states = c.fid_states; ramfs = fs }

-- A write or a change of attributes panics while it holds the lock.
abbrev poisons : RawMessage → Bool
poisons m = (m.msg_type == twrite) || (m.msg_type == twstat)

-- A connection after its turn, and what it leaves to the others.
pub record Turned : Type 0 where
  pub connection : Connection
  pub ramfs : RamFs
  pub poisoned : Bool

abbrev pub ended : Connection → RamFs → End → Bool → Turned
ended c fs e poisoned = record {
  connection = record c { end = some e };
  ramfs = fs;
  poisoned = poisoned;
}

unfoldable pub answered : RawMessage → Str → Connection → RamFs → Handled → Turned
answered m rest c fs (err e) = ended c fs (failed e) false
answered m rest c fs panic = ended c fs panicked (poisons m)
answered m rest c fs (ok (r, s)) = record {
  connection = record c {
    input = rest;
    fid_states = s.fid_states;
    sent = c.sent ++ build_frame r.msg_type m.tag r.body;
  };
  ramfs = s.ramfs;
  poisoned = false;
}

unfoldable pub received : Env → Connection → RamFs → Res (RawMessage × Str) → Turned
received v c fs (err e) = ended c fs (read_error e) false
received v c fs panic = ended c fs panicked false
received v c fs (ok (m, rest)) = answered m rest c fs (dispatch v m (server_of c fs))

unfoldable pub advance : Env → Connection → RamFs → Turned
advance v c fs = elim c.end [
  | some e ↦ record { connection = c; ramfs = fs; poisoned = false }
  | none ↦ received v c fs (read_from c.input)
]

unfoldable pub turn_at : Env → ℕ → List Connection → RamFs → Threads
turn_at v i [] fs = listening fs
turn_at v zero (c ∷ cs) fs =
    let t = advance v c fs in
    record { ramfs = t.ramfs; poisoned = t.poisoned; connections = t.connection ∷ cs }
turn_at v (suc i) (c ∷ cs) fs =
    let t = turn_at v i cs fs in record t { connections = c ∷ t.connections }

unfoldable pub happen : Event → Threads → Threads
happen (incoming input) t = record t { connections = t.connections ++ (accepted input ∷ []) }
happen accept_failed t = t
happen (turn i v) t = turn_at v i t.connections t.ramfs

-- Once the lock is poisoned, what the other threads do is not followed any more.
unfoldable pub run_server : List Event → Threads → Threads
run_server [] t = t
run_server (e ∷ events) t = if t.poisoned then t else run_server events (happen e t)
