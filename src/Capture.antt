-- ===== src/Capture.antt =====
-- The tools that record frames, of tools/capture_golden, capture_procfs, capture_srvfs, capture_devfs and
-- capture_netfs: requests to a server, each with the file of its frame and that of the reply. The other end
-- of the stream is a parameter; writing a file is taken to succeed.
use planten.Base.{ℕ, ◌+◌, ◌%◌, ◌^◌, Res, ok, err, panic, ◌>>=◌, List, [], ◌∷◌, ◌++◌, Str}
use planten.Wire.Bytes.{le_bytes}
use planten.Wire.Types.{RawMessage}
use planten.Wire.Frame.{build_frame, read_from}
pub mod Scripts
pub mod Golden
pub mod Verbatim
mod Examples

-- What arrived on the stream and is not read yet, and the state of its other end.
pub record TraceRecorder (C : Type 0) : Type 0 where
  pub pending : Str
  pub peer : C
  pub next_tag : ℕ

unfoldable pub frame_buf : RawMessage → Str
frame_buf response =
    le_bytes 4 response.size ++ (response.msg_type ∷ (le_bytes 2 response.tag ++ response.body))

-- The arguments of `capture_pair`.
pub record Pair : Type 0 where
  pub request_name : Str
  pub response_name : Str
  pub msg_type : ℕ
  pub body : Str

-- The files in the order in which they are written.
abbrev pub Files : Type 0
Files = List (Str × Str)

module _ {C : Type 0} (answer : Str → C → Str × C) where
  -- `send_with_tag`, and the rest of the stream.
  unfoldable pub send_with_tag :
      ℕ → Str → ℕ → TraceRecorder C → Res ((Str × RawMessage) × TraceRecorder C)
  send_with_tag msg_type body tag r =
      let frame = build_frame msg_type tag body in
      let (sent, peer) = answer frame r.peer in
      do
        (response, rest) ← read_from (r.pending ++ sent)
        ok ((frame, response), record r { pending = rest; peer = peer })

  unfoldable pub send : ℕ → Str → TraceRecorder C → Res ((Str × RawMessage) × TraceRecorder C)
  send msg_type body r =
      send_with_tag msg_type body r.next_tag (record r { next_tag = (r.next_tag + 1) % 2 ^ 16 })

  unfoldable pub capture_pair : Pair → TraceRecorder C → Res (Files × TraceRecorder C)
  capture_pair p r = do
    ((request, response), r) ← send p.msg_type p.body r
    ok ((p.request_name, request) ∷ (p.response_name, frame_buf response) ∷ [], r)

  unfoldable pub capture_all : List Pair → TraceRecorder C → Res (Files × TraceRecorder C)
  capture_all [] r = ok ([], r)
  capture_all (p ∷ pairs) r = do
    (files, r) ← capture_pair p r
    (others, r) ← capture_all pairs r
    ok (files ++ others, r)
