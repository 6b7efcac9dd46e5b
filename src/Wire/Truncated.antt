-- ===== src/Wire/Truncated.antt =====
-- `read_from` on a stream that ends inside a frame.
use planten.Base.{ℕ, ◌+◌, ◌-◌, ◌<◌, ◌≤◌, ltb→ge, ◌^◌, ◌≡◌, refl, ap, arith, Res, ok, err, panic}
use planten.Base.{Str, [], ◌∷◌, ◌++◌, length, length-append, append_assoc, ltb}
use planten.Base.{unexpected_eof, invalid_data, ok-injective, inl, inr, ◌⊎◌}
use planten.Base.{Bool-cases, append-nil, take, drop}
use mathlib.Core.Path.{subst}
use planten.Wire.Bytes.{from_le_bytes, read_exact}
use planten.Wire.Types.{RawMessage}
use planten.Wire.Frame.{build_frame, read_from, read_body}
use planten.Wire.RoundTrip.{read_exact_of_length}
use planten.Wire.Framing.{body_length-fits, read_exact-eq_ok, read_from-build_frame, framed}

read_exact-cases :
    (n : ℕ) (c : Str)
    → (read_exact n c ≡ err unexpected_eof)
      ⊎ ((buf : Str) × (rest : Str) × (read_exact n c ≡ ok (buf, rest)))
unfolding read_exact
read_exact-cases n c = elim (Bool-cases (ltb (length c) n)) [
  | inl short ↦ inl (rw short)
  | inr enough ↦ inr (take n c, drop n c, rw enough)
]

-- More bytes behind the input join the rest.
read_exact-append_ok :
    (n : ℕ) (c more buf rest : Str)
    → read_exact n c ≡ ok (buf, rest)
    → read_exact n (c ++ more) ≡ ok (buf, rest ++ more)
read_exact-append_ok n c more buf rest h =
    let (e, l) = read_exact-eq_ok n c buf rest h in
    rw (e, append_assoc) (read_exact_of_length n buf (rest ++ more) l)

-- Each outcome other than the end of the input stays when more input follows.
abbrev Stays : Res (RawMessage × Str) → Res (RawMessage × Str) → Str → Type 0
Stays (ok (m, rest)) later more = later ≡ ok (m, rest ++ more)
Stays (err unexpected_eof) later more = Unit
Stays (err invalid_data) later more = later ≡ err invalid_data
Stays panic later more = ⊥

read_body-append :
    (size : ℕ) (c more : Str)
    → 7 ≤ size
    → Stays (read_body size c) (read_body size (c ++ more)) more
unfolding read_body
read_body-append size c more h = elim (read_exact-cases 3 c) [
  | inl eof ↦ rw eof tt
  | inr (header, r, e) ↦
      rw (e, read_exact-append_ok 3 c more header r e, body_length-fits size h)
        (elim (read_exact-cases (size - 7) r) [
          | inl eof ↦ rw eof tt
          | inr (body, r', e') ↦ rw (e', read_exact-append_ok (size - 7) r more body r' e') refl
        ])
]

read_from-append : (c more : Str) → Stays (read_from c) (read_from (c ++ more)) more
unfolding read_from
read_from-append c more = elim (read_exact-cases 4 c) [
  | inl eof ↦ rw eof tt
  | inr (sb, r, e) ↦
      rw (e, read_exact-append_ok 4 c more sb r e)
        (elim (Bool-cases (ltb (from_le_bytes sb) 7)) [
          | inl small ↦ rw small refl
          | inr large ↦ rw large (read_body-append (from_le_bytes sb) r more (ltb→ge _ 7 large))
        ])
]

Stays-eof :
    (r : Res (RawMessage × Str)) (x : ℕ) (back : Str) (m : RawMessage)
    → Stays r (ok (m, [])) (x ∷ back)
    → r ≡ err unexpected_eof
Stays-eof (ok (m', rest)) x back m h = absurd (
    omega (
      arith,
      ap (λ (p : RawMessage × Str). length p.1) (ok-injective h),
      length-append rest (x ∷ back),
    ))
Stays-eof (err unexpected_eof) x back m h = refl
Stays-eof (err invalid_data) x back m h = cc
Stays-eof panic x back m h = absurd h

-- A stream that ends inside a frame is reported as ended: no proper prefix of a frame is taken for a
-- message or for a malformed one.
pub read_from-truncated :
    (msg_type tag : ℕ) (body front : Str) (x : ℕ) (back : Str)
    → tag < 2 ^ 16
    → 7 + length body < 2 ^ 32
    → build_frame msg_type tag body ≡ front ++ (x ∷ back)
    → read_from front ≡ err unexpected_eof
read_from-truncated msg_type tag body front x back ht hb e =
    Stays-eof (read_from front) x back (framed msg_type tag body)
      (subst (λ r. Stays (read_from front) r (x ∷ back)) whole (read_from-append front (x ∷ back)))
  where
    whole : read_from (front ++ (x ∷ back)) ≡ ok (framed msg_type tag body, [])
    whole = rw (append-nil, e) at (read_from-build_frame msg_type tag body [] ht hb)
