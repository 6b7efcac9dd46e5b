-- ===== src/Wire/Framing.antt =====
-- `read_from` against `build_frame`.
use planten.Base.{ℕ, suc, ◌+◌, ◌-◌, ◌%◌, ◌≤◌, ◌<◌, ◌^◌, ◌≡◌, refl, sym, ap, ◌∙◌, arith, ok}
use planten.Base.{Str, [], ◌∷◌, ◌++◌, length, length-append, append_assoc, All, ltb, ge→ltb, leb}
use planten.Base.{take, drop, length-take, ltb→ge}
use planten.Base.{take-append-drop, bind-eq-ok, ok-injective, All-of_append, inl, inr, Bool-cases}
use planten.Wire.Bytes.{le_bytes, from_le_bytes, read_exact, length-le_bytes}
use planten.Wire.Bytes.{from_le_bytes-le_bytes, le_bytes-from_le_bytes, from_le_bytes-lt, IsByte}
use planten.Wire.Types.{RawMessage}
use planten.Wire.RoundTrip.{read_exact_of_length, from_le_bytes-one}
use planten.Wire.Frame.{build_frame, read_from, read_body, body_length}
use mathlib.Core.Path.{subst}

-- The message that a frame of this type, tag and body carries.
abbrev pub framed : ℕ → ℕ → Str → RawMessage
framed msg_type tag body = record {
  size = 7 + length body;
  msg_type = msg_type;
  tag = tag;
  body = body;
}

pub body_length-fits : (size : ℕ) → 7 ≤ size → body_length size ≡ ok (size - 7)
unfolding body_length
body_length-fits size h = ground arith

body_length-eq_ok : (size n : ℕ) → body_length size ≡ ok n → n ≡ size - 7
unfolding body_length
body_length-eq_ok size n h = elim (Bool-cases (leb 7 size)) [
  | inl e ↦ sym (ok-injective (rw e at h))
  | inr e ↦ cc (rw e at h)
]

read_body-frame :
    (msg_type tag : ℕ) (body rest : Str)
    → tag < 2 ^ 16
    → read_body (7 + length body) (msg_type ∷ (le_bytes 2 tag ++ (body ++ rest)))
      ≡ ok (framed msg_type tag body, rest)
unfolding read_body
read_body-frame msg_type tag body rest ht =
    rw
      (
        read_exact_of_length 3 (msg_type ∷ le_bytes 2 tag) (body ++ rest)
            (ap suc (length-le_bytes 2 tag)),
        body_length-fits (7 + length body) (omega arith),
        read_exact_of_length (7 + length body - 7) body rest (omega arith),
      )
      (λ i. ok (
        record {
          size = 7 + length body;
          msg_type = from_le_bytes-one msg_type i;
          tag = from_le_bytes-le_bytes 2 tag ht i;
          body = body;
        },
        rest,
      ))

size_fits :
    (body : Str) → 7 + length body < 2 ^ 32 → (7 + length body % 2 ^ 32) % 2 ^ 32 ≡ 7 + length body
size_fits body h = omega arith

-- A frame of fewer than 2 ^ 32 bytes whose tag is below 2 ^ 16 is read back whole, and what follows it stays on the stream.
pub read_from-build_frame :
    (msg_type tag : ℕ) (body rest : Str)
    → tag < 2 ^ 16
    → 7 + length body < 2 ^ 32
    → read_from (build_frame msg_type tag body ++ rest) ≡ ok (framed msg_type tag body, rest)
unfolding read_from build_frame
read_from-build_frame msg_type tag body rest ht hb =
    simp (append_assoc, size_fits body hb)
      (rw (read_exact_of_length 4 (le_bytes 4 (7 + length body)) _ (length-le_bytes 4 _)) (
        rw (from_le_bytes-le_bytes 4 (7 + length body) hb) (
          rw (ge→ltb (7 + length body) 7 (omega arith))
            (read_body-frame msg_type tag body rest ht))))

-- What `read_exact` returns is what stood at the front of the stream.
pub read_exact-eq_ok :
    (n : ℕ) (c : Str) (buf rest : Str)
    → read_exact n c ≡ ok (buf, rest)
    → (c ≡ buf ++ rest) × (length buf ≡ n)
unfolding read_exact
read_exact-eq_ok n c buf rest h = elim (Bool-cases (ltb (length c) n)) [
  | inl short ↦ cc (rw short at h)
  | inr enough ↦ ground (arith, take-append-drop n c, length-take n c)
]

-- The three bytes between the size and the body.
header_bytes :
    (header : Str)
    → All IsByte header
    → length header ≡ 3
    → header ≡ from_le_bytes (take 1 header) ∷ le_bytes 2 (from_le_bytes (drop 1 header))
header_bytes [] h e = absurd (omega arith)
header_bytes (a ∷ []) h e = absurd (omega arith)
header_bytes (a ∷ b ∷ []) h e = absurd (omega arith)
header_bytes (a ∷ b ∷ c ∷ []) h e =
    λ i. sym (from_le_bytes-one a) i ∷ sym (le_bytes-from_le_bytes (b ∷ c ∷ []) h.1) i
header_bytes (a ∷ b ∷ c ∷ d ∷ l) h e = absurd (omega arith)

abbrev Printed : Str → ℕ → RawMessage → Str → Type 0
Printed input size m rest =
    (input ≡ m.msg_type ∷ (le_bytes 2 m.tag ++ (m.body ++ rest)))
    × (length m.body ≡ size - 7)
    × (m.size ≡ size)

Printed-of_parts :
    (size : ℕ) (input header r body rest : Str)
    → All IsByte input
    → (input ≡ header ++ r) × (length header ≡ 3)
    → (r ≡ body ++ rest) × (length body ≡ size - 7)
    → Printed input size
        (record {
          size = size;
          msg_type = from_le_bytes (take 1 header);
          tag = from_le_bytes (drop 1 header);
          body = body;
        })
        rest
Printed-of_parts size input header r body rest hb (e1, l1) (e2, l2) =
    let bs = (All-of_append IsByte header r (subst (All IsByte) e1 hb)).0 in
    (
      e1 ∙ ap (λ t. header ++ t) e2 ∙ ap (λ t. t ++ (body ++ rest)) (header_bytes header bs l1),
      l2,
      refl,
    )

read_body-eq_ok :
    (size : ℕ) (input : Str) (m : RawMessage) (rest : Str)
    → All IsByte input
    → read_body size input ≡ ok (m, rest)
    → Printed input size m rest
unfolding read_body
read_body-eq_ok size input m rest hb h =
    let (hr, eh, h') = bind-eq-ok (read_exact 3 input) _ h in
    let (n, en, hn) = bind-eq-ok (body_length size) _ h' in
    let (br, eb, h'') = bind-eq-ok (read_exact n hr.1) _ hn in
    let (e, len) = read_exact-eq_ok n hr.1 br.0 br.1 eb in
    subst (λ (p : RawMessage × Str). Printed input size p.0 p.1) (ok-injective h'')
      (Printed-of_parts size input hr.0 hr.1 br.0 br.1 hb (read_exact-eq_ok 3 input hr.0 hr.1 eh)
        (e, len ∙ body_length-eq_ok size n en))

frame_of_parts :
    (sb r : Str) (m : RawMessage) (rest : Str)
    → All IsByte sb
    → length sb ≡ 4
    → 7 ≤ from_le_bytes sb
    → Printed r (from_le_bytes sb) m rest
    → (sb ++ r ≡ build_frame m.msg_type m.tag m.body ++ rest) × (m.size ≡ 7 + length m.body)
unfolding build_frame
frame_of_parts sb r m rest hb l4 big (e, lb, es) =
    let small : from_le_bytes sb < 256 ^ 4 =
      subst (λ n. from_le_bytes sb < 256 ^ n) l4 (from_le_bytes-lt sb hb) in
    let same : le_bytes 4 (from_le_bytes sb) ≡ sb =
      subst (λ n. le_bytes n (from_le_bytes sb) ≡ sb) l4 (le_bytes-from_le_bytes sb hb) in
    let size : 7 + length m.body ≡ from_le_bytes sb = omega arith in
    (
      simp (append_assoc, size_fits m.body (omega arith), size, same) (ap (λ t. sb ++ t) e),
      omega arith,
    )

-- Whatever message is accepted from a stream of bytes is a frame that `build_frame` writes: type, tag, length and body are the
-- message's, and the bytes behind it are left on the stream.
pub build_frame-read_from :
    (input : Str) (m : RawMessage) (rest : Str)
    → All IsByte input
    → read_from input ≡ ok (m, rest)
    → (input ≡ build_frame m.msg_type m.tag m.body ++ rest) × (m.size ≡ 7 + length m.body)
unfolding read_from
build_frame-read_from input m rest hb h =
    let (sr, es, h') = bind-eq-ok (read_exact 4 input) _ h in
    let (e0, l0) = read_exact-eq_ok 4 input sr.0 sr.1 es in
    let (bs, br) = All-of_append IsByte sr.0 sr.1 (subst (All IsByte) e0 hb) in
    elim (Bool-cases (ltb (from_le_bytes sr.0) 7)) [
      | inl small ↦ cc (rw small at h')
      | inr large ↦
          let p = read_body-eq_ok _ sr.1 m rest br (rw large at h') in
          subst
            (λ t. (t ≡ build_frame m.msg_type m.tag m.body ++ rest) × (m.size ≡ 7 + length m.body))
            (sym e0) (frame_of_parts sr.0 sr.1 m rest bs l0 (ltb→ge _ 7 large) p)
    ]

shorter :
    (c sb r1 header r2 body r3 rest : Str)
    → (c ≡ sb ++ r1) × (length sb ≡ 4)
    → (r1 ≡ header ++ r2) × (length header ≡ 3)
    → r2 ≡ body ++ r3
    → r3 ≡ rest
    → length rest + 7 ≤ length c
shorter c sb r1 header r2 body r3 rest e1 e2 e3 e4 = omega (
  arith,
  ap length e1.0,
  ap length e2.0,
  ap length e3,
  ap length e4,
  length-append sb r1,
  length-append header r2,
  length-append body r3,
)

-- A message takes seven bytes of the stream at least.
pub length-read_from :
    (c : Str) (m : RawMessage) (rest : Str)
    → read_from c ≡ ok (m, rest)
    → length rest + 7 ≤ length c
unfolding read_from read_body
length-read_from c m rest h =
    let (sr, es, h') = bind-eq-ok (read_exact 4 c) _ h in
    elim (Bool-cases (ltb (from_le_bytes sr.0) 7)) [
      | inl small ↦ cc (rw small at h')
      | inr large ↦
          let (hr, eh, h2) = bind-eq-ok (read_exact 3 sr.1) _ (rw large at h') in
          let (n, en, hn) = bind-eq-ok (body_length (from_le_bytes sr.0)) _ h2 in
          let (br, eb, h3) = bind-eq-ok (read_exact n hr.1) _ hn in
          shorter c sr.0 sr.1 hr.0 hr.1 br.0 br.1 rest (read_exact-eq_ok 4 c sr.0 sr.1 es)
            (read_exact-eq_ok 3 sr.1 hr.0 hr.1 eh) (read_exact-eq_ok _ hr.1 br.0 br.1 eb).0
            (ap (λ (p : RawMessage × Str). p.1) (ok-injective h3))
    ]
