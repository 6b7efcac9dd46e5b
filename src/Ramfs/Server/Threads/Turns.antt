-- ===== src/Ramfs/Server/Threads/Turns.antt =====
-- A connection of libs/planten_fs_ramfs/src/server.rs among others: its turns one after another.
use planten.Base.{ℕ, zero, suc, ◌<◌, ◌≡◌, refl, ap, ◌∙◌, arith, Bool, true, false, inl, inr}
use planten.Base.{
  none, some, List, [], ◌∷◌, ◌++◌, Str, length, Res-cases, sym, append-nil, append_assoc,
}
use mathlib.Core.Path.{subst}
use planten.Wire.Frame.{build_frame, read_from}
use planten.Wire.Framing.{length-read_from}
use planten.Ramfs.Tree.{RamFs}
use planten.Ramfs.Server.Dispatch.{Env, dispatch, Run, End, serve, handle_client}
use planten.Ramfs.Server.Threads.{
  Connection, Threads, Event, incoming, turn, accepted, server_of, Turned, ended, answered,
  received, advance, turn_at, happen, run_server,
}

-- The turns of connection `i`, where `envs n` is what stands around the one before the last `n`.
abbrev pub turns : ℕ → (ℕ → Env) → ℕ → List Event
turns i envs zero = []
turns i envs (suc n) = turn i (envs n) ∷ turns i envs n

-- The others as they were, the last connection after its turn.
abbrev behind : List Connection → Turned → Threads
behind cs t = record {
  ramfs = t.ramfs;
  poisoned = t.poisoned;
  connections = cs ++ (t.connection ∷ []);
}

-- The threads after the last connection has been served: the others as they were, and of that one, from the
-- bytes sent before, what `run` is.
pub record Served (cs : List Connection) (before : Str) (run : Run) (t : Threads) : Type 0 where
  pub connection : Connection
  pub ramfs : t.ramfs ≡ run.server.ramfs
  pub connections : t.connections ≡ cs ++ (connection ∷ [])
  pub fids : connection.fid_states ≡ run.server.fid_states
  pub sent : connection.sent ≡ before ++ run.sent
  pub end : connection.end ≡ some run.end

abbrev waiting : Connection → RamFs → Bool → Turned
waiting c fs poisoned = record { connection = c; ramfs = fs; poisoned = poisoned }

turn_at-last :
    (v : Env) (cs : List Connection) (c : Connection) (fs : RamFs)
    → turn_at v (length cs) (cs ++ (c ∷ [])) fs ≡ behind cs (advance v c fs)
unfolding turn_at
turn_at-last v [] c fs = refl
turn_at-last v (d ∷ cs) c fs =
    ap {A = Threads} {B = Threads} (λ t. record t { connections = d ∷ t.connections })
      (turn_at-last v cs c fs)

run_server-turn :
    (v : Env) (events : List Event) (cs : List Connection) (c : Connection) (fs : RamFs)
    → run_server (turn (length cs) v ∷ events) (behind cs (waiting c fs false))
      ≡ run_server events (behind cs (advance v c fs))
unfolding run_server happen
run_server-turn v events cs c fs = ap (λ t. run_server events t) (turn_at-last v cs c fs)

-- A thread that has ended does nothing in its turns.
advance-ended :
    (v : Env) (c : Connection) (fs : RamFs) (e : End)
    → c.end ≡ some e
    → advance v c fs ≡ waiting c fs false
unfolding advance
advance-ended v c fs e h =
    let p = ap {B = Connection} (λ x. record c { end = x }) h in
    ap (λ d. advance v d fs) p ∙ ap (λ d. waiting d fs false) (sym p)

turns-ended :
    (envs : ℕ → Env) (n : ℕ) (cs : List Connection) (c : Connection) (fs : RamFs) (poisoned : Bool)
    (e : End)
    → c.end ≡ some e
    → run_server (turns (length cs) envs n) (behind cs (waiting c fs poisoned))
      ≡ behind cs (waiting c fs poisoned)
unfolding run_server advance
turns-ended envs zero cs c fs poisoned e h = refl
turns-ended envs (suc n) cs c fs true e h = refl
turns-ended envs (suc n) cs c fs false e h =
    run_server-turn (envs n) (turns (length cs) envs n) cs c fs
    ∙ (ap (λ t. run_server (turns (length cs) envs n) (behind cs t))
          (advance-ended (envs n) c fs e h)
        ∙ turns-ended envs n cs c fs false e h)

-- A thread that ends in its turn is as it ended after all turns.
ended-Served :
    (envs : ℕ → Env) (n : ℕ) (cs : List Connection) (c : Connection) (fs : RamFs) (e : End)
    (poisoned : Bool)
    → Served cs c.sent
        (record { sent = []; server = server_of c fs; end = e })
        (run_server (turns (length cs) envs n) (behind cs (ended c fs e poisoned)))
ended-Served envs n cs c fs e poisoned =
    rw (turns-ended envs n cs (record c { end = some e }) fs poisoned e refl) (record {
      connection = record c { end = some e };
      ramfs = refl;
      connections = refl;
      fids = refl;
      sent = sym (append-nil c.sent);
      end = refl;
    })

append-Served :
    (cs : List Connection) (before frame : Str) (run : Run) (t : Threads)
    → Served cs (before ++ frame) run t
    → Served cs before (record run { sent = frame ++ run.sent }) t
append-Served cs before frame run t h = record {
  connection = h.connection;
  ramfs = h.ramfs;
  connections = h.connections;
  fids = h.fids;
  sent = h.sent ∙ append_assoc before frame run.sent;
  end = h.end;
}

turns-serve :
    (envs : ℕ → Env) (fuel : ℕ) (cs : List Connection) (c : Connection) (fs : RamFs)
    → c.end ≡ none
    → length c.input < fuel
    → Served cs c.sent
        (serve envs fuel c.input (server_of c fs))
        (run_server (turns (length cs) envs fuel) (behind cs (waiting c fs false)))
unfolding serve advance received answered
turns-serve envs zero cs c fs live h = absurd (omega arith)
turns-serve envs (suc n) cs c fs live h =
    rw (run_server-turn (envs n) (turns (length cs) envs n) cs c fs, live, advance)
      (elim (Res-cases (read_from c.input)) [
        | inl ((m, rest), q) ↦ elim (Res-cases (dispatch (envs n) m (server_of c fs))) [
          | inl ((r, s), d) ↦
              rw (q, received, serve, d)
                (append-Served cs c.sent (build_frame r.msg_type m.tag r.body) _ _ (
                  turns-serve envs n cs _ s.ramfs live
                    (omega (arith, length-read_from c.input m rest q))))
          | inr (inl (x, d)) ↦ rw (q, received, serve, d) (ended-Served envs n cs c fs _ _)
          | inr (inr d) ↦ rw (q, received, serve, d) (ended-Served envs n cs c fs _ _)
        ]
        | inr (inl (x, q)) ↦ rw (q, serve) (ended-Served envs n cs c fs _ _)
        | inr (inr q) ↦ rw (q, serve) (ended-Served envs n cs c fs _ _)
      ])

-- Among connections of which none has poisoned the lock, one that comes in, and has the turns of its thread one
-- after another, does to the shared tree and to its own fids what `handle_client` does, sends the same bytes
-- and ends in the same way; the others are as they were.
pub run_server-handle_client :
    (envs : ℕ → Env) (input : Str) (t : Threads)
    → t.poisoned ≡ false
    → Served t.connections []
        (handle_client envs input (server_of (accepted input) t.ramfs))
        (run_server (incoming input ∷ turns (length t.connections) envs (suc (length input))) t)
unfolding run_server happen handle_client
run_server-handle_client envs input t clean =
    subst
      (λ u.
        Served u.connections [] (handle_client envs input (server_of (accepted input) u.ramfs))
          (run_server (incoming input ∷ turns (length u.connections) envs (suc (length input))) u))
      (sym (ap {B = Threads} (λ b. record t { poisoned = b }) clean))
      (turns-serve envs (suc (length input)) t.connections (accepted input) t.ramfs refl
        (omega arith))
