-- ===== src/Wire/Decode.antt =====
-- The `decode_*` functions of libs/planten_9p/src/lib.rs. Each takes the bytes that are left in the
-- cursor and returns its value with the bytes that follow.
use planten.Base.{ℕ, Res, ok, err, invalid_data, ◌>>=◌, if◌then◌else◌, Str, take, drop}
use planten.Wire.Bytes.{from_le_bytes, read_exact}
use planten.Wire.Utf8.{is_utf8}
use planten.Wire.Types.{Qid, Stat}

unfoldable pub decode_u16 : Str → Res (ℕ × Str)
decode_u16 cursor = do (buf, rest) ← read_exact 2 cursor; ok (from_le_bytes buf, rest)

unfoldable pub decode_u32 : Str → Res (ℕ × Str)
decode_u32 cursor = do (buf, rest) ← read_exact 4 cursor; ok (from_le_bytes buf, rest)

unfoldable pub decode_u64 : Str → Res (ℕ × Str)
decode_u64 cursor = do (buf, rest) ← read_exact 8 cursor; ok (from_le_bytes buf, rest)

unfoldable pub decode_string : Str → Res (Str × Str)
decode_string cursor = do
  (len, rest) ← decode_u16 cursor
  (buffer, rest') ← read_exact len rest
  if is_utf8 buffer then ok (buffer, rest') else err invalid_data

-- `qid_buf[0]`, `qid_buf[1..5]` and `qid_buf[5..13]`.
unfoldable pub qid_of_buf : Str → Qid
qid_of_buf buf = record {
  qtype = from_le_bytes (take 1 buf);
  version = from_le_bytes (take 4 (drop 1 buf));
  path = from_le_bytes (take 8 (drop 5 buf));
}

unfoldable pub decode_qid : Str → Res (Qid × Str)
decode_qid cursor = do (buf, rest) ← read_exact 13 cursor; ok (qid_of_buf buf, rest)

-- The fields of a stat, read from the buffer that holds it.
unfoldable pub decode_stat_buf : Str → Res Stat
decode_stat_buf inner = do
  (type_, inner) ← decode_u16 inner
  (dev, inner) ← decode_u32 inner
  (qid, inner) ← decode_qid inner
  (mode, inner) ← decode_u32 inner
  (atime, inner) ← decode_u32 inner
  (mtime, inner) ← decode_u32 inner
  (length, inner) ← decode_u64 inner
  (name, inner) ← decode_string inner
  (uid, inner) ← decode_string inner
  (gid, inner) ← decode_string inner
  (muid, inner) ← decode_string inner
  ok (record {
    type_ = type_;
    dev = dev;
    qid = qid;
    mode = mode;
    atime = atime;
    mtime = mtime;
    length = length;
    name = name;
    uid = uid;
    gid = gid;
    muid = muid;
  })

unfoldable pub decode_stat : Str → Res (Stat × Str)
decode_stat cursor = do
  (stat_size, rest) ← decode_u16 cursor
  (buffer, rest') ← read_exact stat_size rest
  stat ← decode_stat_buf buffer
  ok (stat, rest')
