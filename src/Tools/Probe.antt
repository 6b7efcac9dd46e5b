-- ===== src/Tools/Probe.antt =====
-- `probe_remote_share` of userspace/planten_coreutils/src/bin/10_ns.rs: a client asks whether a path is there.
use planten.Base.{Option, none, some, Res, ok, err, panic, List, [], ◌∷◌, Str, bytes}
use planten.Fs.FilePath.{components}
use planten.Client.{P9Client}
use planten.Client.Operations.{version, attach, walk, clunk}

-- The steps, of which the first that fails gives the error.
pub data ProbeStep : Type 0 where
  connecting versioning attaching walking clunking : ProbeStep

pub data Probe : Type 0 where
  reachable probe_panicked : Probe
  refusal : ProbeStep → Probe

-- `map_err(…)?`: the rest if the step went well.
abbrev pub checked : {A : Type 0} → Res A → ProbeStep → Probe → Probe
checked (ok a) step rest = rest
checked (err e) step rest = refusal step
checked panic step rest = probe_panicked

-- `client.clunk(1).ok()`: an error is ignored.
abbrev pub ignored : {A : Type 0} → Res A → Probe → Probe
ignored (ok a) rest = rest
ignored (err e) rest = rest
ignored panic rest = probe_panicked

module _ {C : Type 0} (answer : Str → C → Str × C) where
  unfoldable pub probe_end : P9Client C → Probe
  probe_end c = checked (clunk answer 0 c).0 clunking reachable

  unfoldable pub probe_walk : List Str → P9Client C → Probe
  probe_walk [] c = probe_end c
  probe_walk (name ∷ names) c =
      let walked = walk answer 0 1 (name ∷ names) c in
      let clunked = clunk answer 1 walked.1 in
      checked walked.0 walking (ignored clunked.0 (probe_end clunked.1))

  -- `connected` is what `P9Client::new` returns, `uname` the user or `guest`.
  unfoldable pub probe_remote_share : Option C → Str → Str → Probe
  probe_remote_share none uname remote_path = refusal connecting
  probe_remote_share (some peer) uname remote_path =
      let c : P9Client C = record { pending = []; peer = peer; next_tag = 0 } in
      let versioned = version answer 131072 (bytes "9P2000") c in
      let attached = attach answer 0 none uname [] versioned.1 in
      checked versioned.0 versioning
        (checked attached.0 attaching (probe_walk (components remote_path) attached.1))
