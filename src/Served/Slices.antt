-- ===== src/Served/Slices.antt =====
-- What a read takes of a file, in libs/planten_fs_srv/src/server.rs and libs/planten_fs_dev/src/server.rs, and
-- the fuel of their loops.
use planten.Base.{ℕ, ◌+◌, ◌-◌, ◌^◌, ◌<◌, ◌≡◌, ◌≢◌, refl, arith, min, Bool, none, ok}
use planten.Base.{
  inl, inr, Bool-cases, [], Str, length, take, drop, get_elem?, ltb, if◌then◌else◌, lt→ltb, ltb→lt,
}
use planten.Base.{get_elem?-take, get_elem?-drop, get_elem?-none}
use planten.Ramfs.Bytes.{add_usize, slice_of-fits}
use planten.Ramfs.Server.Dispatch.{out_of_fuel}
use planten.Served.View.{FsView, read_slice}
use planten.Served.Loop.{serve_stream-ends}
use planten.Served.Opening.{answer, opening_client}
use planten.Served.Plain.{plain_answer, plain_client}

-- A read whose end is below 2 ^ 64, in a build with overflow checks or without, gets the bytes that stand
-- from the offset on, up to the count or to the end of the file.
pub read_slice-at :
    (checks : Bool) (offset count : ℕ) (bs : Str)
    → offset + count < 2 ^ 64
    → (slice : Str) × (read_slice checks offset count bs ≡ ok slice)
      × ((i : ℕ) → get_elem? slice i ≡ (if ltb i count then get_elem? bs (offset + i) else none))
unfolding read_slice add_usize
read_slice-at checks offset count bs h =
    let end = min (offset + count) (length bs) in
    elim (Bool-cases (ltb offset end)) [
      | inl e ↦ (
        take (end - offset) (drop offset bs),
        rw (lt→ltb (offset + count) (2 ^ 64) h, e)
            (slice_of-fits offset end bs (omega (arith, ltb→lt _ _ e)) (omega arith)),
        λ i. ground (
          arith,
          get_elem?-take (end - offset) (drop offset bs) i,
          get_elem?-drop offset bs i,
          get_elem?-none bs (offset + i),
        ),
      )
      | inr e ↦ (
        [],
        rw (lt→ltb (offset + count) (2 ^ 64) h, e) refl,
        λ i. ground (arith, get_elem?-none bs (offset + i)),
      )
    ]

-- On every input stream the loop of srvfs and procfs ends within its fuel.
pub opening_client-ends :
    (views : ℕ → FsView) (checks : Bool) (input : Str)
    → (opening_client views checks input).end ≢ out_of_fuel
unfolding opening_client
opening_client-ends views checks input =
    serve_stream-ends (λ n m fids. answer (views n) checks m fids) input []

-- On every input stream the loop of devfs and netfs ends within its fuel.
pub plain_client-ends :
    (root : Str) (views : ℕ → FsView) (checks : Bool) (input : Str)
    → (plain_client root views checks input).end ≢ out_of_fuel
unfolding plain_client
plain_client-ends root views checks input =
    serve_stream-ends (λ n m fids. plain_answer root (views n) checks m fids) input []
