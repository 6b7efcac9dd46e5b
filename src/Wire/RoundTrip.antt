-- ===== src/Wire/RoundTrip.antt =====
-- Decoding what was encoded: integers, texts, qids and stats.
use planten.Base.{ℕ, ◌<◌, ◌^◌, ◌≡◌, ap, arith, ok, Str, [], ◌∷◌, ◌++◌}
use planten.Base.{length, length-append, append_assoc, append-nil}
use planten.Wire.Bytes.{le_bytes, from_le_bytes, read_exact, read_exact-append, length-le_bytes}
use planten.Wire.Bytes.{from_le_bytes-le_bytes}
use planten.Wire.Types.{Qid, Stat, QidFits, StrFits, StatFits}
use planten.Wire.Encode.{encode_string, encode_qid_bytes, stat_buf, encode_stat_payload}
use planten.Wire.Decode.{decode_u16, decode_u32, decode_u64, decode_string, decode_qid, qid_of_buf}
use planten.Wire.Decode.{decode_stat_buf, decode_stat}
use native.Mathlib.Nat.{mod-eq_of_lt}

pub read_exact_of_length :
    (n : ℕ) (xs ys : Str) → length xs ≡ n → read_exact n (xs ++ ys) ≡ ok (xs, ys)
read_exact_of_length n xs ys e = rw (← e) (read_exact-append xs ys)

pub decode_u16-le_bytes :
    (v : ℕ) (rest : Str) → v < 2 ^ 16 → decode_u16 (le_bytes 2 v ++ rest) ≡ ok (v, rest)
unfolding decode_u16
decode_u16-le_bytes v rest h =
    rw (read_exact_of_length 2 (le_bytes 2 v) rest (length-le_bytes 2 v))
      (ap (λ u. ok (u, rest)) (from_le_bytes-le_bytes 2 v h))

pub decode_u32-le_bytes :
    (v : ℕ) (rest : Str) → v < 2 ^ 32 → decode_u32 (le_bytes 4 v ++ rest) ≡ ok (v, rest)
unfolding decode_u32
decode_u32-le_bytes v rest h =
    rw (read_exact_of_length 4 (le_bytes 4 v) rest (length-le_bytes 4 v))
      (ap (λ u. ok (u, rest)) (from_le_bytes-le_bytes 4 v h))

pub decode_u64-le_bytes :
    (v : ℕ) (rest : Str) → v < 2 ^ 64 → decode_u64 (le_bytes 8 v ++ rest) ≡ ok (v, rest)
unfolding decode_u64
decode_u64-le_bytes v rest h =
    rw (read_exact_of_length 8 (le_bytes 8 v) rest (length-le_bytes 8 v))
      (ap (λ u. ok (u, rest)) (from_le_bytes-le_bytes 8 v h))

-- A UTF-8 text of fewer than 2 ^ 16 bytes is read back, and the bytes behind it are left.
pub decode_string-encode_string :
    (s rest : Str) → StrFits s → decode_string (encode_string s ++ rest) ≡ ok (s, rest)
unfolding decode_string encode_string
decode_string-encode_string s rest fits =
    rw (append_assoc, mod-eq_of_lt fits.len)
      (rw (decode_u16-le_bytes (length s) (s ++ rest) fits.len)
        (rw (read_exact-append s rest) (rw fits.utf8)))

pub length-encode_qid_bytes : (q : Qid) → length (encode_qid_bytes q) ≡ 13
unfolding encode_qid_bytes
length-encode_qid_bytes q =
    omega (arith, length-append (le_bytes 4 q.version) (le_bytes 8 q.path), length-le_bytes)

pub from_le_bytes-one : (b : ℕ) → from_le_bytes (b ∷ []) ≡ b
unfolding from_le_bytes
from_le_bytes-one b = omega arith

qid_of_buf-encode_qid_bytes : (q : Qid) → QidFits q → qid_of_buf (encode_qid_bytes q) ≡ q
unfolding qid_of_buf encode_qid_bytes le_bytes from_le_bytes
qid_of_buf-encode_qid_bytes q fits = λ i. record {
  qtype = from_le_bytes-one q.qtype i;
  version = from_le_bytes-le_bytes 4 q.version fits.version i;
  path = from_le_bytes-le_bytes 8 q.path fits.path i;
}

-- A qid whose fields fit their Rust types is read back, and the bytes behind it are left.
pub decode_qid-encode_qid_bytes :
    (q : Qid) (rest : Str) → QidFits q → decode_qid (encode_qid_bytes q ++ rest) ≡ ok (q, rest)
unfolding decode_qid
decode_qid-encode_qid_bytes q rest fits =
    rw (read_exact_of_length 13 (encode_qid_bytes q) rest (length-encode_qid_bytes q))
      (ap (λ p. ok (p, rest)) (qid_of_buf-encode_qid_bytes q fits))

pub decode_string_end : (s : Str) → StrFits s → decode_string (encode_string s) ≡ ok (s, [])
decode_string_end s fits = rw append-nil at (decode_string-encode_string s [] fits)

decode_stat_buf-stat_buf : (s : Stat) → StatFits s → decode_stat_buf (stat_buf s) ≡ ok s
unfolding decode_stat_buf stat_buf
decode_stat_buf-stat_buf s fits = simp (
  decode_u16-le_bytes s.type_ _ fits.type_,
  decode_u32-le_bytes s.dev _ fits.dev,
  decode_qid-encode_qid_bytes s.qid _ fits.qid,
  decode_u32-le_bytes s.mode _ fits.mode,
  decode_u32-le_bytes s.atime _ fits.atime,
  decode_u32-le_bytes s.mtime _ fits.mtime,
  decode_u64-le_bytes s.length _ fits.length,
  decode_string-encode_string s.name _ fits.name,
  decode_string-encode_string s.uid _ fits.uid,
  decode_string-encode_string s.gid _ fits.gid,
  decode_string_end s.muid fits.muid,
)

-- A stat whose fields fit their Rust types, whose texts are UTF-8 of fewer than 2 ^ 16 bytes and whose
-- encoding fits its two-byte length is read back, and the bytes behind it are left.
pub decode_stat-encode_stat_payload :
    (s : Stat) (rest : Str)
    → StatFits s
    → length (stat_buf s) < 2 ^ 16
    → decode_stat (encode_stat_payload s ++ rest) ≡ ok (s, rest)
unfolding decode_stat encode_stat_payload
decode_stat-encode_stat_payload s rest fits len =
    rw (append_assoc, mod-eq_of_lt len)
      (rw (decode_u16-le_bytes (length (stat_buf s)) (stat_buf s ++ rest) len)
        (rw (read_exact-append (stat_buf s) rest) (rw (decode_stat_buf-stat_buf s fits))))
