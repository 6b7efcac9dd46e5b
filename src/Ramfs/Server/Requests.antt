-- ===== src/Ramfs/Server/Requests.antt =====
-- The requests that the client of libs/planten_9p/src/lib.rs encodes, as the handlers of
-- libs/planten_fs_ramfs/src/server.rs answer them.
use planten.Base.{ℕ, ◌+◌, ◌-◌, ◌^◌, ◌<◌, min, ◌≡◌}
use planten.Base.{arith, Bool, none, ok, Bool-cases, inl}
use planten.Base.{inr, [], Str, lookup, length, drop, get_elem?}
use planten.Base.{take, get_elem?-take, get_elem?-drop, get_elem?-none, ltb, leb, if◌then◌else◌}
use planten.Base.{append-nil, leb→le, leb→gt, ap}
use planten.Wire.Bytes.{le_bytes, read_exact, read_exact-append}
use planten.Wire.Encode.{encode_read_body, encode_write_body}
use planten.Wire.RoundTrip.{decode_u32-le_bytes, decode_u64-le_bytes}
use planten.Ramfs.Server.State.{Server}
use planten.Ramfs.Bytes.{slice_of-fits}
use planten.Ramfs.Server.Files.{chunk, handle_read, read_fid, handle_write, write_fid}
use mathlib.Core.Path.{subst}
use planten.Wire.Decode.{decode_u32}
use native.Mathlib.Nat.{mod-eq_of_lt}

-- What stands from an offset on, up to a count or to the end of the file.
abbrev pub piece : ℕ → ℕ → Str → Str
piece offset count bs = take (min (offset + count) (length bs) - offset) (drop offset bs)

pub piece_at :
    (offset count : ℕ) (bs : Str) (i : ℕ)
    → get_elem? (piece offset count bs) i
      ≡ (if ltb i count then get_elem? bs (offset + i) else none)
piece_at offset count bs i = ground (
  arith,
  get_elem?-take (min (offset + count) (length bs) - offset) (drop offset bs) i,
  get_elem?-drop offset bs i,
  get_elem?-none bs (offset + i),
)

-- The slice of a read does not panic, and is the piece of the file.
pub chunk-piece :
    (offset count : ℕ) (bs : Str)
    → chunk offset (min (offset + count) (length bs)) bs ≡ ok (piece offset count bs)
unfolding chunk
chunk-piece offset count bs = elim (Bool-cases (leb (length bs) offset)) [
  | inl past ↦ rw past (
      let nothing : 0 ≡ min (offset + count) (length bs) - offset =
        omega (arith, leb→le _ _ past) in
      ap (λ n. ok (take n (drop offset bs))) nothing)
  | inr inside ↦
      rw inside (slice_of-fits offset _ bs (omega (arith, leb→gt _ _ inside)) (omega arith))
]

pub decode_u32_end : (v : ℕ) → v < 2 ^ 32 → decode_u32 (le_bytes 4 v) ≡ ok (v, [])
decode_u32_end v h = rw append-nil at (decode_u32-le_bytes v [] h)

-- A write request reaches the file system with the fid, the offset and the bytes that were encoded.
pub handle_write-encode_write_body :
    (checks : Bool) (now fid offset : ℕ) (bs : Str) (s : Server)
    → fid < 2 ^ 32
    → offset < 2 ^ 64
    → length bs < 2 ^ 32
    → handle_write checks now (encode_write_body fid offset bs) s
      ≡ write_fid checks now (lookup fid s.fid_states) offset bs s
unfolding handle_write encode_write_body
handle_write-encode_write_body checks now fid offset bs s hf ho hb = rw (
  decode_u32-le_bytes fid _ hf,
  decode_u64-le_bytes offset _ ho,
  mod-eq_of_lt hb,
  decode_u32-le_bytes (length bs) bs hb,
  subst (λ c. read_exact (length bs) c ≡ ok (bs, [])) (append-nil bs) (read_exact-append bs []),
)

pub handle_read-encode_read_body :
    (hash : Str → ℕ → ℕ) (checks : Bool) (fid offset count : ℕ) (s : Server)
    → fid < 2 ^ 32
    → offset < 2 ^ 64
    → count < 2 ^ 32
    → handle_read hash checks (encode_read_body fid offset count) s
      ≡ read_fid hash checks (lookup fid s.fid_states) offset count s
unfolding handle_read encode_read_body
handle_read-encode_read_body hash checks fid offset count s hf ho hc =
    rw (decode_u32-le_bytes fid _ hf, decode_u64-le_bytes offset _ ho, decode_u32_end count hc)
