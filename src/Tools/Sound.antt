-- ===== src/Tools/Sound.antt =====
-- What the other end can make of `probe_remote_share` of userspace/planten_coreutils/src/bin/10_ns.rs.
use planten.Base.{ℕ, zero, suc, ◌≢◌, Option, none, some, Res, ok, err, panic, ◌>>=◌}
use planten.Base.{if◌then◌else◌, List, [], ◌∷◌, ◌++◌, Str, bytes, ltb, ErrorKind}
use planten.Base.{◌==◌, ◌-◌, ◌≤◌, Bool, true, false, Bool-cases, inl, inr, ltb→ge}
use planten.Wire.Framing.{body_length-fits}
use planten.Wire.Bytes.{read_exact, from_le_bytes}
use planten.Wire.Frame.{build_frame, read_from, read_body}
use planten.Wire.Decode.{decode_u16, decode_u32, decode_string, decode_qid}
use planten.Fs.FilePath.{components}
use planten.Ramfs.Server.Panics.{NoPanic, NoPanic-bind, read_exact-NoPanic, decode_u16-NoPanic}
use planten.Ramfs.Server.Panics.{decode_u32-NoPanic, decode_string-NoPanic}
use planten.Client.{P9Client, call, send_and_wait, accept_response, ensure_msg_type, message_of}
use planten.Client.{version_result, walk_result, skip_qids, no_result}
use planten.Client.Operations.{version, attach, walk, clunk}
use planten.Tools.Probe.{Probe, ProbeStep, probe_panicked, checked, ignored}
use planten.Tools.Probe.{probe_remote_share, probe_walk, probe_end}

NoPanic-if :
    {A : Type 0} (b : Bool) (x y : Res A) → NoPanic x → NoPanic y → NoPanic (if b then x else y)
NoPanic-if true x y h k = h
NoPanic-if false x y h k = k

read_body-NoPanic : (size : ℕ) (input : Str) → 7 ≤ size → NoPanic (read_body size input)
unfolding read_body
read_body-NoPanic size input h =
    NoPanic-bind (read_exact 3 input) _ (read_exact-NoPanic 3 input) λ (header, rest).
      rw (body_length-fits size h)
        (NoPanic-bind (read_exact (size - 7) rest) _ (read_exact-NoPanic (size - 7) rest) λ x. tt)

read_from-NoPanic : (input : Str) → NoPanic (read_from input)
unfolding read_from
read_from-NoPanic input =
    NoPanic-bind (read_exact 4 input) _ (read_exact-NoPanic 4 input) λ (size, rest).
      elim (Bool-cases (ltb (from_le_bytes size) 7)) [
        | inl small ↦ rw small tt
        | inr large ↦ rw large (read_body-NoPanic (from_le_bytes size) rest (ltb→ge _ 7 large))
      ]

decode_qid-NoPanic : (c : Str) → NoPanic (decode_qid c)
unfolding decode_qid
decode_qid-NoPanic c = NoPanic-bind (read_exact 13 c) _ (read_exact-NoPanic 13 c) λ x. tt

skip_qids-NoPanic : (n : ℕ) (c : Str) → NoPanic (skip_qids n c)
unfolding skip_qids
skip_qids-NoPanic zero c = tt
skip_qids-NoPanic (suc n) c =
    NoPanic-bind (decode_qid c) _ (decode_qid-NoPanic c) λ (q, rest). skip_qids-NoPanic n rest

version_result-NoPanic : (body : Str) → NoPanic (version_result body)
unfolding version_result
version_result-NoPanic body = NoPanic-bind (decode_u32 body) _ (decode_u32-NoPanic body) λ (n, c).
    NoPanic-bind (decode_string c) _ (decode_string-NoPanic c)
      λ (v, c). NoPanic-if (ltb n 1) (err ErrorKind.invalid_data) (ok v) tt tt

walk_result-NoPanic : (body : Str) → NoPanic (walk_result body)
unfolding walk_result
walk_result-NoPanic body =
    NoPanic-bind (decode_u16 body) _ (decode_u16-NoPanic body)
      λ (n, c). NoPanic-bind (skip_qids n c) _ (skip_qids-NoPanic n c) λ x. tt

module _ {C : Type 0} (answer : Str → C → Str × C) where
  call-NoPanic :
      {A : Type 0} (t rt : ℕ) (body : Str) (result : Str → Res A) (c : P9Client C)
      → ((s : Str) → NoPanic (result s))
      → NoPanic (call answer t rt body result c).0
  unfolding call send_and_wait accept_response ensure_msg_type
  call-NoPanic t rt body result c h =
      let received = read_from (c.pending ++ (answer (build_frame t c.next_tag body) c.peer).0) in
      NoPanic-bind (message_of received >>= λ response. accept_response c.next_tag response) _
        (NoPanic-bind (message_of received) _
          (NoPanic-bind received _ (read_from-NoPanic _) λ x. tt)
          λ response.
            NoPanic-if (response.tag == c.next_tag) (ok response) (err ErrorKind.invalid_data) tt
              tt)
        λ response.
          NoPanic-bind (ensure_msg_type response rt) _
            (NoPanic-if (response.msg_type == rt) (ok tt) (err ErrorKind.invalid_data) tt tt)
            λ u. h response.body

  ignored-ne_panicked :
      {A : Type 0} (r : Res A) (rest : Probe)
      → NoPanic r
      → rest ≢ probe_panicked
      → ignored r rest ≢ probe_panicked
  ignored-ne_panicked (ok a) rest h k = k
  ignored-ne_panicked (err e) rest h k = k
  ignored-ne_panicked panic rest h k = absurd h

  checked-ne_panicked :
      {A : Type 0} (r : Res A) (step : ProbeStep) (rest : Probe)
      → NoPanic r
      → rest ≢ probe_panicked
      → checked r step rest ≢ probe_panicked
  checked-ne_panicked (ok a) step rest h k = k
  checked-ne_panicked (err e) step rest h k = λ q. cc
  checked-ne_panicked panic step rest h k = absurd h

  clunk-NoPanic : (fid : ℕ) (c : P9Client C) → NoPanic (clunk answer fid c).0
  unfolding clunk
  clunk-NoPanic fid c = call-NoPanic _ _ _ no_result c λ s. tt

  probe_walk-ne_panicked :
      (names : List Str) (c : P9Client C) → probe_walk answer names c ≢ probe_panicked
  unfolding probe_walk probe_end walk
  probe_walk-ne_panicked [] c =
      checked-ne_panicked (clunk answer 0 c).0 _ _ (clunk-NoPanic 0 c) (λ q. cc)
  probe_walk-ne_panicked (name ∷ names) c =
      checked-ne_panicked (walk answer 0 1 (name ∷ names) c).0 _ _
        (call-NoPanic _ _ _ walk_result c walk_result-NoPanic)
        (ignored-ne_panicked (clunk answer 1 _).0 _ (clunk-NoPanic 1 _)
          (checked-ne_panicked (clunk answer 0 _).0 _ _ (clunk-NoPanic 0 _) (λ q. cc)))

  -- Whatever the other end sends: a probe does not panic.
  pub probe_remote_share-ne-panicked :
      (connected : Option C) (uname path : Str)
      → probe_remote_share answer connected uname path ≢ probe_panicked
  unfolding probe_remote_share version attach
  probe_remote_share-ne-panicked none uname path = λ q. cc
  probe_remote_share-ne-panicked (some peer) uname path =
      checked-ne_panicked (version answer 131072 (bytes "9P2000") _).0 _ _
        (call-NoPanic _ _ _ version_result _ version_result-NoPanic)
        (checked-ne_panicked (attach answer 0 none uname [] _).0 _ _
          (call-NoPanic _ _ _ no_result _ λ s. tt) (probe_walk-ne_panicked (components path) _))
