-- ===== src/Capture/Verbatim.antt =====
-- The files of the tools that record frames (tools/capture_procfs/src/main.rs and the like) against the
-- bytes on the stream.
use planten.Base.{ℕ, suc, refl, ◌+◌, ◌%◌, ◌^◌, ◌≡◌, sym, ap, ◌∙◌, arith, ok, bind-eq-ok}
use planten.Base.{
  List, [], ◌∷◌, ◌++◌, Str, length, append_assoc, ok-injective, All, All-append, All-of_append,
  append-nil, Res-cases, inl, inr,
}
use planten.Wire.Bytes.{le_bytes, IsByte}
use planten.Wire.Types.{RawMessage}
use planten.Wire.Frame.{build_frame, read_from}
use planten.Wire.Framing.{build_frame-read_from}
use planten.Capture.{TraceRecorder, frame_buf, Pair, Files, send_with_tag, send, capture_pair}
use planten.Capture.{capture_all}
use mathlib.Core.Path.{subst}

four_equal :
    (a b c d a' b' c' d' : ℕ)
    → a ≡ a'
    → b ≡ b'
    → c ≡ c'
    → d ≡ d'
    → a ∷ b ∷ c ∷ d ∷ [] ≡ a' ∷ b' ∷ c' ∷ d' ∷ []
four_equal a b c d a' b' c' d' h k l m = cc

size_bytes : (n : ℕ) → le_bytes 4 ((7 + n % 2 ^ 32) % 2 ^ 32) ≡ le_bytes 4 (7 + n)
unfolding le_bytes
size_bytes n = four_equal _ _ _ _ _ _ _ _ (omega arith) (omega arith) (omega arith) (omega arith)

-- The bytes of a message that was read are those that `build_frame` writes.
frame_buf-build_frame :
    (m : RawMessage)
    → m.size ≡ 7 + length m.body
    → frame_buf m ≡ build_frame m.msg_type m.tag m.body
unfolding frame_buf build_frame
frame_buf-build_frame m h =
    ap (λ n. le_bytes 4 n ++ (m.msg_type ∷ (le_bytes 2 m.tag ++ m.body))) h
    ∙ ap (λ s. s ++ (m.msg_type ∷ (le_bytes 2 m.tag ++ m.body))) (sym (size_bytes (length m.body)))

frame_buf-read_from :
    (input : Str) (m : RawMessage) (rest : Str)
    → All IsByte input
    → read_from input ≡ ok (m, rest)
    → input ≡ frame_buf m ++ rest
frame_buf-read_from input m rest hb h =
    let (framed, size) = build_frame-read_from input m rest hb h in
    framed ∙ ap (λ s. s ++ rest) (sym (frame_buf-build_frame m size))

-- The files of a script, from a tag on, where these replies came back: a request in the file that its
-- pair names for requests, and the reply in the one that it names for responses.
abbrev pub recorded : List Pair → ℕ → List Str → Files
recorded [] tag replies = []
recorded (p ∷ pairs) tag [] = []
recorded (p ∷ pairs) tag (reply ∷ replies) =
    (p.request_name, build_frame p.msg_type tag p.body)
    ∷ (p.response_name, reply)
    ∷ recorded pairs ((tag + 1) % 2 ^ 16) replies

abbrev pub concat : List Str → Str
concat [] = []
concat (s ∷ ss) = s ++ concat ss

module _ {C : Type 0} (answer : Str → C → Str × C) where
  abbrev pub answers : List Pair → ℕ → C → Str
  answers [] tag peer = []
  answers (p ∷ pairs) tag peer =
      (answer (build_frame p.msg_type tag p.body) peer).0
      ++ answers pairs ((tag + 1) % 2 ^ 16) (answer (build_frame p.msg_type tag p.body) peer).1

  abbrev next_recorder : Pair → Str → TraceRecorder C → TraceRecorder C
  next_recorder p rest r = record {
    pending = rest;
    peer = (answer (build_frame p.msg_type r.next_tag p.body) r.peer).1;
    next_tag = (r.next_tag + 1) % 2 ^ 16;
  }

  -- A pair that is captured has read a message, and goes on behind it.
  capture_pair-eq_ok :
      (p : Pair) (r r' : TraceRecorder C) (files : Files)
      → capture_pair answer p r ≡ ok (files, r')
      → (m : RawMessage) × (rest : Str) × (read_from
            (r.pending ++ (answer (build_frame p.msg_type r.next_tag p.body) r.peer).0)
          ≡ ok (m, rest))
        × (files
            ≡ (p.request_name, build_frame p.msg_type r.next_tag p.body)
              ∷ (p.response_name, frame_buf m)
              ∷ [])
        × (r' ≡ next_recorder p rest r)
  unfolding capture_pair send send_with_tag
  capture_pair-eq_ok p r r' files h =
      elim (Res-cases
        (read_from (r.pending ++ (answer (build_frame p.msg_type r.next_tag p.body) r.peer).0))) [
          | inl ((m, rest), e) ↦
              let same = ok-injective (rw e at h) in
              (
                m,
                rest,
                e,
                sym (ap (λ (x : Files × TraceRecorder C). x.0) same),
                sym (ap (λ (x : Files × TraceRecorder C). x.1) same),
              )
          | inr (inl (x, e)) ↦ cc (rw e at h)
          | inr (inr e) ↦ cc (rw e at h)
        ]

  -- Whatever the other end sends: a script that is captured has one reply for each pair; the files are,
  -- pair by pair, the frame of the request under the name of the request, with the tags counted up from the
  -- recorder's next one, and the reply under the name of the response; and the replies, byte for byte and in
  -- order, are what came back, up to what is still unread.
  pub capture_all-verbatim :
      (pairs : List Pair) (r r' : TraceRecorder C) (files : Files)
      → All IsByte (r.pending ++ answers pairs r.next_tag r.peer)
      → capture_all answer pairs r ≡ ok (files, r')
      → (replies : List Str) × (length replies ≡ length pairs)
        × (files ≡ recorded pairs r.next_tag replies)
        × (r.pending ++ answers pairs r.next_tag r.peer ≡ concat replies ++ r'.pending)
  unfolding capture_all
  capture_all-verbatim [] r r' files hb h =
      let same = ok-injective h in
      (
        [],
        refl,
        ap (λ (x : Files × TraceRecorder C). x.0) (sym same),
        append-nil r.pending ∙ ap (λ (x : Files × TraceRecorder C). x.1.pending) same,
      )
  capture_all-verbatim (p ∷ pairs) r r' files hb h =
      let ((first, r1), captured, h1) = bind-eq-ok (capture_pair answer p r) _ h in
      let ((others, r2), more, h2) = bind-eq-ok (capture_all answer pairs r1) _ h1 in
      let (m, rest, read, texts, next) = capture_pair-eq_ok p r r1 first captured in
      let sent = (answer (build_frame p.msg_type r.next_tag p.body) r.peer).0 in
      let later =
        answers pairs ((r.next_tag + 1) % 2 ^ 16)
          (answer (build_frame p.msg_type r.next_tag p.body) r.peer).1 in
      let (here, behind) =
        All-of_append IsByte (r.pending ++ sent) later
          (subst (All IsByte) (sym (append_assoc r.pending sent later)) hb) in
      let consumed = frame_buf-read_from (r.pending ++ sent) m rest here read in
      let unread = (All-of_append IsByte (frame_buf m) rest (subst (All IsByte) consumed here)).1 in
      let (replies, count, names, came) =
        capture_all-verbatim pairs (next_recorder p rest r) r2 others
          (All-append IsByte rest later unread behind)
          (subst (λ x. capture_all answer pairs x ≡ ok (others, r2)) next more) in
      let same = ok-injective h2 in
      (
        frame_buf m ∷ replies,
        ap suc count,
        sym (ap (λ (x : Files × TraceRecorder C). x.0) same)
            ∙ ap (λ f. f ++ others) texts
            ∙ ap
                (λ f.
                  (p.request_name, build_frame p.msg_type r.next_tag p.body)
                  ∷ (p.response_name, frame_buf m)
                  ∷ f)
                names,
        sym (append_assoc r.pending sent later)
            ∙ ap (λ t. t ++ later) consumed
            ∙ append_assoc (frame_buf m) rest later
            ∙ ap (λ t. frame_buf m ++ t) came
            ∙ sym (append_assoc (frame_buf m) (concat replies) r2.pending)
            ∙ ap (λ (x : Files × TraceRecorder C). (frame_buf m ++ concat replies) ++ x.1.pending)
                same,
      )
