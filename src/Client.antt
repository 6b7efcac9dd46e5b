-- ===== src/Client.antt =====
-- `P9Client` of libs/planten_9p/src/lib.rs. The other end of its stream is a parameter: what it sends
-- when a frame arrives, and its next state.
use planten.Base.{
  ℕ, zero, suc, ◌+◌, ◌%◌, ◌^◌, Bool, Option, Res, ok, err, panic, invalid_data, unexpected_eof,
  drop, ◌>>=◌, if◌then◌else◌, ◌==◌, ltb,
}
use planten.Base.{List, [], ◌++◌, Str}
use planten.Wire.Bytes.{read_exact}
use planten.Wire.Types.{RawMessage, Qid, Stat}
use planten.Wire.Frame.{build_frame, read_from}
use planten.Wire.Decode.{decode_u16, decode_u32, decode_string, decode_qid, decode_stat}
pub mod Operations
pub mod Peer
pub mod ReadBack
pub mod Checked
pub mod Programs
pub mod Guest
pub mod Session
mod Examples

-- What arrived on the stream and is not read yet, and the state of its other end.
pub record P9Client (C : Type 0) : Type 0 where
  pub pending : Str
  pub peer : C
  pub next_tag : ℕ

unfoldable pub ensure_msg_type : RawMessage → ℕ → Res (Unit {0})
ensure_msg_type response expected =
    if response.msg_type == expected then ok tt else err invalid_data

-- `for _ in 0..nwqid { decode_qid(&mut cursor)?; }`
unfoldable pub skip_qids : ℕ → Str → Res Str
skip_qids zero cursor = ok cursor
skip_qids (suc n) cursor = do (_, cursor) ← decode_qid cursor; skip_qids n cursor

unfoldable pub version_result : Str → Res Str
version_result body = do
  (negotiated, cursor) ← decode_u32 body
  (version, cursor) ← decode_string cursor
  if ltb negotiated 1 then err invalid_data else ok version

unfoldable pub auth_result : Str → Res Qid
auth_result body = do (aqid, cursor) ← decode_qid body; ok aqid

unfoldable pub walk_result : Str → Res ℕ
walk_result body = do (nwqid, cursor) ← decode_u16 body; cursor ← skip_qids nwqid cursor; ok nwqid

unfoldable pub open_result : Str → Res ℕ
open_result body = do (_, cursor) ← decode_qid body; (iounit, cursor) ← decode_u32 cursor; ok iounit

unfoldable pub create_result : Str → Res (Qid × ℕ)
create_result body = do
  (qid, cursor) ← decode_qid body
  (iounit, cursor) ← decode_u32 cursor
  ok (qid, iounit)

unfoldable pub read_result : Str → Res Str
read_result body = do
  (data_len, cursor) ← decode_u32 body
  (payload, cursor) ← read_exact data_len cursor
  ok payload

unfoldable pub write_result : Str → Res ℕ
write_result body = do (count, cursor) ← decode_u32 body; ok count

unfoldable pub stat_result : Str → Res Stat
stat_result body = do (stat, cursor) ← decode_stat body; ok stat

abbrev pub no_result : Str → Res (Unit {0})
no_result body = ok tt

unfoldable pub accept_response : ℕ → RawMessage → Res RawMessage
accept_response tag response = if response.tag == tag then ok response else err invalid_data

abbrev pub message_of : Res (RawMessage × Str) → Res RawMessage
message_of r = r >>= λ x. ok x.0

-- What stays unread: after a size that is too small, what stands behind it, and nothing at the end of the
-- stream.
abbrev pub rest_of : Str → Res (RawMessage × Str) → Str
rest_of input (ok (m, rest)) = rest
rest_of input (err invalid_data) = drop 4 input
rest_of input (err unexpected_eof) = []
rest_of input panic = []

module _ {C : Type 0} (answer : Str → C → Str × C) where
  unfoldable pub send_and_wait : ℕ → Str → P9Client C → Res RawMessage × P9Client C
  send_and_wait msg_type body c =
      let (sent, peer) = answer (build_frame msg_type c.next_tag body) c.peer in
      let received = read_from (c.pending ++ sent) in
      (
        message_of received >>= λ response. accept_response c.next_tag response,
        record {
          pending = rest_of (c.pending ++ sent) received;
          peer = peer;
          next_tag = (c.next_tag + 1) % 2 ^ 16;
        },
      )

  -- A request of one type, whose reply has the other type, and the result that its body holds.
  unfoldable pub call : {A : Type 0} → ℕ → ℕ → Str → (Str → Res A) → P9Client C → Res A × P9Client C
  call msg_type expected body result c =
      let (r, c') = send_and_wait msg_type body c in
      (r >>= λ response. ensure_msg_type response expected >>= λ u. result response.body, c')
