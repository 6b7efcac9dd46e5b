-- ===== src/Wire/Frame.antt =====
-- `RawMessage::read_from`, `RawMessage::from_bytes` and `build_frame` of libs/planten_9p/src/lib.rs.
-- A reader is the list of the bytes that arrive on it before its end.
use planten.Base.{
  ℕ, ◌+◌, ◌-◌, ◌%◌, ◌^◌, Res, ok, err, invalid_data, ◌>>=◌, if◌then◌else◌, ltb, leb, panic,
}
use planten.Base.{Str, ◌∷◌, ◌++◌, length, take, drop}
use planten.Wire.Bytes.{le_bytes, from_le_bytes, read_exact}
use planten.Wire.Types.{RawMessage}

-- `7 + body.len() as u32` wraps here, as in a build without overflow checks; with them, a body of 2 ^ 32 - 7
-- bytes or more panics instead.
unfoldable pub build_frame : ℕ → ℕ → Str → Str
build_frame msg_type tag body =
    le_bytes 4 ((7 + length body % 2 ^ 32) % 2 ^ 32) ++ (msg_type ∷ (le_bytes 2 tag ++ body))

-- `size as usize - 7`: below 7 it panics where the build checks for overflow; elsewhere it wraps, and a vector
-- of that many bytes panics.
unfoldable pub body_length : ℕ → Res ℕ
body_length size = if leb 7 size then ok (size - 7) else panic

unfoldable pub read_body : ℕ → Str → Res (RawMessage × Str)
read_body size reader = do
  (header, reader) ← read_exact 3 reader
  body_len ← body_length size
  (body, reader) ← read_exact body_len reader
  ok (
    record {
      size = size;
      msg_type = from_le_bytes (take 1 header);
      tag = from_le_bytes (drop 1 header);
      body = body;
    },
    reader,
  )

unfoldable pub read_from : Str → Res (RawMessage × Str)
read_from reader = do
  (size_bytes, reader) ← read_exact 4 reader
  let size = from_le_bytes size_bytes
  if ltb size 7 then err invalid_data else read_body size reader

unfoldable pub from_bytes : Str → Res RawMessage
from_bytes bs = do (message, rest) ← read_from bs; ok message
