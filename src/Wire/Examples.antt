-- ===== src/Wire/Examples.antt =====
-- The codec of libs/planten_9p/src/lib.rs at small inputs.
use planten.Base.{
  ◌≡◌, refl, arith, true, ok, err, unexpected_eof, [], ◌∷◌, ◌++◌, Str, bytes, All, Bool, ltb,
  ltb→lt, ◌&&◌,
}
use planten.Base.{Bool-cases, inl, inr}
use planten.Wire.Utf8.{is_utf8}
use planten.Wire.Bytes.{le_bytes, from_le_bytes, IsByte, read_exact}
use planten.Wire.Types.{RawMessage, Qid, Stat, QidFits, StrFits, StatFits}
use planten.Wire.Encode.{encode_string, encode_qid_bytes, stat_buf, encode_stat_payload}
use planten.Wire.Decode.{decode_stat}
use planten.Wire.Frame.{build_frame, read_body, body_length, read_from}
use planten.Wire.RoundTrip.{decode_stat-encode_stat_payload}
use planten.Wire.Framing.{framed, read_from-build_frame, build_frame-read_from}
use planten.Wire.Truncated.{read_from-truncated}

abbrev name_text : Str
name_text = bytes "glenda"

name_fits : StrFits name_text
unfolding is_utf8
name_fits = record { len = omega arith; utf8 = refl }

abbrev a_qid : Qid
a_qid = record { qtype = 0x80; version = 77; path = 123456789 }

qid_fits : QidFits a_qid
qid_fits = record { qtype = omega arith; version = omega arith; path = omega arith }

abbrev a_stat : Stat
a_stat = record {
  type_ = 0;
  dev = 1;
  qid = a_qid;
  mode = 0o644;
  atime = 10;
  mtime = 11;
  length = 12;
  name = name_text;
  uid = name_text;
  gid = name_text;
  muid = name_text;
}

stat_fits : StatFits a_stat
stat_fits = record {
  type_ = omega arith;
  dev = omega arith;
  qid = qid_fits;
  mode = omega arith;
  atime = omega arith;
  mtime = omega arith;
  length = omega arith;
  name = name_fits;
  uid = name_fits;
  gid = name_fits;
  muid = name_fits;
}

abbrev a_frame : Str
a_frame = 9 ∷ 0 ∷ 0 ∷ 0 ∷ 120 ∷ 5 ∷ 0 ∷ 1 ∷ 2 ∷ []

abbrev all_bytes : Str → Bool
all_bytes [] = true
all_bytes (b ∷ bs) = ltb b 256 && all_bytes bs

all_bytes-IsByte : (bs : Str) → all_bytes bs ≡ true → All IsByte bs
all_bytes-IsByte [] h = tt
all_bytes-IsByte (b ∷ bs) h = elim (Bool-cases (ltb b 256)) [
  | inl e ↦ (ltb→lt b 256 e, all_bytes-IsByte bs (rw e at h))
  | inr e ↦ cc (rw e at h)
]

a_frame-IsByte : All IsByte a_frame
a_frame-IsByte = all_bytes-IsByte a_frame refl

a_frame-eq : build_frame 120 5 (1 ∷ 2 ∷ []) ≡ a_frame
unfolding build_frame le_bytes
a_frame-eq = refl

read_a_frame : read_from (a_frame ++ (3 ∷ [])) ≡ ok (framed 120 5 (1 ∷ 2 ∷ []), 3 ∷ [])
unfolding read_from read_body body_length read_exact from_le_bytes
read_a_frame = refl

decode_stat-encode_stat_payload_example :
    decode_stat (encode_stat_payload a_stat ++ (1 ∷ [])) ≡ ok (a_stat, 1 ∷ [])
unfolding stat_buf encode_string le_bytes encode_qid_bytes
decode_stat-encode_stat_payload_example =
    decode_stat-encode_stat_payload a_stat (1 ∷ []) stat_fits (omega arith)

read_from-build_frame_example :
    read_from (build_frame 120 5 name_text ++ (1 ∷ [])) ≡ ok (framed 120 5 name_text, 1 ∷ [])
read_from-build_frame_example =
    read_from-build_frame 120 5 name_text (1 ∷ []) (omega arith) (omega arith)

abbrev two_bytes : RawMessage
two_bytes = framed 120 5 (1 ∷ 2 ∷ [])

build_frame-read_from_example :
    (a_frame ++ (3 ∷ []) ≡ build_frame two_bytes.msg_type two_bytes.tag two_bytes.body ++ (3 ∷ []))
    × (two_bytes.size ≡ 9)
build_frame-read_from_example =
    build_frame-read_from (a_frame ++ (3 ∷ [])) two_bytes (3 ∷ [])
      (all_bytes-IsByte (a_frame ++ (3 ∷ [])) refl) read_a_frame

read_from-truncated_example : read_from (9 ∷ 0 ∷ 0 ∷ 0 ∷ 120 ∷ 5 ∷ []) ≡ err unexpected_eof
read_from-truncated_example =
    read_from-truncated 120 5 (1 ∷ 2 ∷ []) (9 ∷ 0 ∷ 0 ∷ 0 ∷ 120 ∷ 5 ∷ []) 0 (1 ∷ 2 ∷ [])
      (omega arith) (omega arith) a_frame-eq
