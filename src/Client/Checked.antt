-- ===== src/Client/Checked.antt =====
-- What a successful call of `P9Client` of libs/planten_9p/src/lib.rs has checked.
use planten.Base.{ℕ, ◌≡◌, sym, ap, ◌∙◌, Bool-cases, inl, inr, ==→eq, Res, ok}
use planten.Base.{bind-eq-ok, ok-injective, ◌++◌, Str, ◌==◌}
use planten.Wire.Types.{RawMessage}
use planten.Wire.Frame.{build_frame, read_from}
use planten.Client.{P9Client, send_and_wait, accept_response, ensure_msg_type, call, message_of}
use mathlib.Core.Path.{subst}

accept_response-eq_ok :
    (tag : ℕ) (m k : RawMessage) → accept_response tag m ≡ ok k → (m ≡ k) × (m.tag ≡ tag)
unfolding accept_response
accept_response-eq_ok tag m k h = elim (Bool-cases (m.tag == tag)) [
  | inl e ↦ (ok-injective (rw e at h), ==→eq m.tag tag e)
  | inr e ↦ cc (rw e at h)
]

ensure_msg_type-eq_ok :
    (m : RawMessage) (t : ℕ) (u : Unit {0}) → ensure_msg_type m t ≡ ok u → m.msg_type ≡ t
unfolding ensure_msg_type
ensure_msg_type-eq_ok m t u h = elim (Bool-cases (m.msg_type == t)) [
  | inl e ↦ ==→eq m.msg_type t e
  | inr e ↦ cc (rw e at h)
]

-- Whatever the other end sends: a call that succeeds has read a frame with the tag of its request and the
-- expected type, and its result is the one that the frame's body holds.
pub call-eq_ok :
    {A C : Type 0} (answer : Str → C → Str × C) (t rt : ℕ) (body : Str) (result : Str → Res A)
    (c : P9Client C) (a : A)
    → (call answer t rt body result c).0 ≡ ok a
    → (m : RawMessage) × (rest : Str) × (read_from
          (c.pending ++ (answer (build_frame t c.next_tag body) c.peer).0)
        ≡ ok (m, rest))
      × (m.tag ≡ c.next_tag)
      × (m.msg_type ≡ rt)
      × (result m.body ≡ ok a)
unfolding call send_and_wait
call-eq_ok answer t rt body result c a h =
    let (k, got, h1) = bind-eq-ok (send_and_wait answer t body c).0 _ h in
    let (m, received, accepted) =
      bind-eq-ok
        (message_of (read_from (c.pending ++ (answer (build_frame t c.next_tag body) c.peer).0))) _
        got in
    let ((m', rest), read, same_m) =
      bind-eq-ok (read_from (c.pending ++ (answer (build_frame t c.next_tag body) c.peer).0)) _
        received in
    let (u, typed, res) = bind-eq-ok (ensure_msg_type k rt) _ h1 in
    let (mk, tagged) = accept_response-eq_ok c.next_tag m k accepted in
    (
      m,
      rest,
      read ∙ ap (λ x. ok (x, rest)) (ok-injective same_m),
      tagged,
      subst (λ x. x.msg_type ≡ rt) (sym mk) (ensure_msg_type-eq_ok k rt u typed),
      subst (λ x. result x.body ≡ ok a) (sym mk) res,
    )
