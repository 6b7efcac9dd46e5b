-- ===== src/Capture/Examples.antt =====
-- The tools that record frames, with an end that answers every frame by the reply to a clunk with tag 0.
use planten.Base.{ℕ, ◌≡◌, refl, arith, ok, List, [], ◌∷◌, ◌++◌, Str, bytes, length}
use planten.Wire.Bytes.{le_bytes, from_le_bytes, read_exact}
use planten.Wire.Frame.{build_frame, read_from, read_body, body_length}
use planten.Wire.Messages.{tclunk}
use planten.Capture.{TraceRecorder, Files, Pair, frame_buf, send, send_with_tag, capture_pair}
use planten.Capture.{capture_all}
use planten.Capture.Scripts.{pair}
use planten.Capture.Verbatim.{recorded, concat, answers, capture_all-verbatim}

abbrev clunked : Str → ℕ → Str × ℕ
clunked frame n = (7 ∷ 0 ∷ 0 ∷ 0 ∷ 121 ∷ 0 ∷ 0 ∷ [], n)

abbrev fresh : TraceRecorder ℕ
fresh = record { pending = []; peer = 0; next_tag = 0 }

abbrev script : List Pair
script = pair (bytes "request") (bytes "response") tclunk (1 ∷ 0 ∷ 0 ∷ 0 ∷ []) ∷ []

abbrev files : Files
files =
    (bytes "request", 11 ∷ 0 ∷ 0 ∷ 0 ∷ 120 ∷ 0 ∷ 0 ∷ 1 ∷ 0 ∷ 0 ∷ 0 ∷ [])
    ∷ (bytes "response", 7 ∷ 0 ∷ 0 ∷ 0 ∷ 121 ∷ 0 ∷ 0 ∷ [])
    ∷ []

script_captured : capture_all clunked script fresh ≡ ok (files, record fresh { next_tag = 1 })
unfolding capture_all capture_pair send send_with_tag build_frame read_from read_body body_length
    read_exact from_le_bytes le_bytes frame_buf
script_captured = refl

capture_all-verbatim_example :
    (replies : List Str) × (length replies ≡ 1)
    × (files ≡ recorded script 0 replies)
    × (answers clunked script 0 0 ≡ concat replies ++ [])
capture_all-verbatim_example =
    capture_all-verbatim clunked script fresh (record fresh { next_tag = 1 }) files (omega arith)
      script_captured
