-- ===== src/Ramfs/Server/Threads/Interleaved.antt =====
-- What holds however the connections of libs/planten_fs_ramfs/src/server.rs interleave.
use planten.Base.{ℕ, zero, suc, Bool, true, false, Option-cases, inl, inr}
use planten.Base.{if◌then◌else◌, List, [], ◌∷◌, Str, All, All-append, lookup, Res-cases}
use planten.Wire.Frame.{read_from}
use planten.Ramfs.Tree.{RamFs}
use planten.Ramfs.WellFormed.{IsWellFormed}
use planten.Ramfs.Server.Absolute.{FidsAbsolute}
use planten.Ramfs.Server.Dispatch.{Env, dispatch}
use planten.Ramfs.Server.Contract.{Steps, done, more, Steps-FidsAbsolute, dispatch-Step}
use planten.Ramfs.Server.Shape.{Steps-IsWellFormed}
use planten.Ramfs.Server.Threads.{
  Connection, Threads, Event, incoming, accept_failed, turn, accepted, listening, server_of,
  answered, received, advance, turn_at, happen, run_server,
}

-- A well formed tree, and absolute paths behind the fids of every connection.
abbrev pub AbsoluteFids : Connection → Type 0
AbsoluteFids c = (fs : RamFs) → FidsAbsolute (server_of c fs)

pub record IsSound (t : Threads) : Type 0 where
  pub tree : IsWellFormed t.ramfs.root
  pub fids : All AbsoluteFids t.connections

-- A turn is a sequence of steps that the contract allows, on the fids of its connection.
advance-Steps :
    (v : Env) (c : Connection) (fs : RamFs)
    → FidsAbsolute (server_of c fs)
    → (sent : Str) × Steps c.input
        (server_of c fs)
        sent
        (server_of (advance v c fs).connection (advance v c fs).ramfs)
unfolding advance received answered
advance-Steps v c fs h = elim (Option-cases c.end) [
  | inr (e, p) ↦ rw (p, advance) ([], done)
  | inl p ↦ elim (Res-cases (read_from c.input)) [
    | inl ((m, rest), q) ↦ elim (Res-cases (dispatch v m (server_of c fs))) [
      | inl ((r, s), d) ↦
          rw (p, advance, q, received, d) (_, more q (dispatch-Step v m _ s r h d) done)
      | inr (inl (x, d)) ↦ rw (p, advance, q, received, d) ([], done)
      | inr (inr d) ↦ rw (p, advance, q, received, d) ([], done)
    ]
    | inr (inl (x, q)) ↦ rw (p, advance, q) ([], done)
    | inr (inr q) ↦ rw (p, advance, q) ([], done)
  ]
]

turn_at-IsSound :
    (v : Env) (i : ℕ) (cs : List Connection) (fs : RamFs)
    → IsWellFormed fs.root
    → All AbsoluteFids cs
    → IsSound (turn_at v i cs fs)
unfolding turn_at
turn_at-IsSound v i [] fs w h = record { tree = w; fids = tt }
turn_at-IsSound v zero (c ∷ cs) fs w (a, h) =
    let (sent, steps) = advance-Steps v c fs (a fs) in
    record {
      tree = Steps-IsWellFormed steps w;
      fids = ((λ f. record { at = (Steps-FidsAbsolute steps (a fs)).at }), h);
    }
turn_at-IsSound v (suc i) (c ∷ cs) fs w (a, h) =
    let s = turn_at-IsSound v i cs fs w h in record { tree = s.tree; fids = (a, s.fids) }

accepted-AbsoluteFids : (input : Str) → AbsoluteFids (accepted input)
unfolding lookup
accepted-AbsoluteFids input fs = record { at = λ k st e. cc }

happen-IsSound : (e : Event) (t : Threads) → IsSound t → IsSound (happen e t)
unfolding happen
happen-IsSound (incoming input) t s = record {
  tree = s.tree;
  fids = All-append AbsoluteFids t.connections _ s.fids (accepted-AbsoluteFids input, tt);
}
happen-IsSound accept_failed t s = s
happen-IsSound (turn i v) t s = turn_at-IsSound v i t.connections t.ramfs s.tree s.fids

if_intro : (P : Threads → Type 0) (b : Bool) {t u : Threads} → P t → P u → P (if b then t else u)
if_intro P true p q = p
if_intro P false p q = q

run_server-keeps : (events : List Event) (t : Threads) → IsSound t → IsSound (run_server events t)
unfolding run_server
run_server-keeps [] t s = s
run_server-keeps (e ∷ events) t s =
    if_intro IsSound t.poisoned s (run_server-keeps events (happen e t) (happen-IsSound e t s))

-- From a well formed tree and no connections, however connections come in and their messages interleave, in
-- whatever numbers and with whatever bytes: the tree that they share stays well formed, every child under its
-- own name and no name twice in a directory, and every fid of every connection stands for an absolute path.
pub run_server-IsSound :
    (events : List Event) (fs : RamFs)
    → IsWellFormed fs.root
    → IsSound (run_server events (listening fs))
run_server-IsSound events fs w =
    run_server-keeps events (listening fs) (record { tree = w; fids = tt })
