-- ===== src/Served/ReadPanics.antt =====
-- Which reads make the servers of libs/planten_fs_srv/src/server.rs and libs/planten_fs_proc/src/server.rs
-- panic.
use planten.Base.{ℕ, ◌≡◌, refl, arith, Bool, true, false, Option, none, some, inl, inr}
use planten.Base.{Res, panic, Str, lookup}
use planten.Base.{
  ◌≤◌, ◌<◌, ltb→lt, ltb→ge, ok, err, ◌>>=◌, Option-cases, sym, ap, ◌∙◌, some-injective, Bool-cases,
  ltb, ◌↔◌, ◌+◌, ◌^◌,
}
use planten.Ramfs.Bytes.{add_usize}
use planten.Ramfs.Server.State.{FidState}
use planten.Wire.Encode.{encode_read_body}
use planten.Wire.RoundTrip.{decode_u32-le_bytes, decode_u64-le_bytes}
use planten.Ramfs.Server.Requests.{decode_u32_end}
use planten.Served.View.{FsView, read_slice}
use planten.Served.Opening.{Fids, read_found, read_known}
use planten.Served.Opening.{read_reply}
use planten.Served.Panics.{never, slice-NoPanic, read_slice-NoPanic}

-- The slice that a read takes is in range: only the sum can panic.
read_slice-panic :
    (checks : Bool) (offset count : ℕ) (bs : Str)
    → (read_slice checks offset count bs ≡ panic) ↔ ((checks ≡ true) × (2 ^ 64 ≤ offset + count))
unfolding read_slice add_usize
read_slice-panic true offset count bs = elim (Bool-cases (ltb (offset + count) (2 ^ 64))) [
  | inl e ↦ rw e (
    never _ (slice-NoPanic offset (offset + count) bs),
    λ (c, h). absurd (omega (arith, ltb→lt _ _ e)),
  )
  | inr e ↦ rw e (λ p. (refl, ltb→ge _ _ e), λ h. refl)
]
read_slice-panic false offset count bs =
    (never _ (read_slice-NoPanic offset count bs), λ (c, h). cc)

bind_ok-panic :
    {A B : Type 0} (r : Res A) (f : A → B) → ((r >>= λ a. ok (f a)) ≡ panic) ↔ (r ≡ panic)
bind_ok-panic (ok a) f = (λ p. cc, λ p. cc)
bind_ok-panic (err e) f = (λ p. cc, λ p. cc)
bind_ok-panic panic f = (λ p. refl, λ p. refl)

-- What makes a read panic: the sum of offset and count is checked and too large, and there are bytes to read.
abbrev pub ReadPanics : FsView → Bool → ℕ → ℕ → Option FidState → Type 0
ReadPanics v checks offset count o =
    (checks ≡ true)
    × (2 ^ 64 ≤ offset + count)
    × (state : FidState) × (bs : Str) × (o ≡ some state)
    × (v.read state.path ≡ some bs)

read_known-panic :
    (v : FsView) (checks : Bool) (offset count : ℕ) (o : Option FidState) (fids : Fids)
    → (read_known v checks offset count o fids ≡ panic) ↔ ReadPanics v checks offset count o
unfolding read_known read_found
read_known-panic v checks offset count none fids = (λ p. cc, λ (c, h, st, bs, o, r). cc)
read_known-panic v checks offset count (some state) fids = elim (Option-cases (v.read state.path)) [
  | inl e ↦ rw (e, read_found) (λ p. cc, λ (c, h, st, bs, o, r). absurd (unread st bs e o r))
  | inr (bs, e) ↦
      rw (e, read_found)
        (
          λ p.
              let (c, h) = (read_slice-panic checks offset count bs).0 ((bind_ok-panic _ _).0 p) in
              (c, h, state, bs, refl, e),
          λ (c, h, st, bs', o, r).
              (bind_ok-panic _ _).1 ((read_slice-panic checks offset count bs).1 (c, h)),
        )
]
  where
    unread :
        (st : FidState) (bs : Str)
        → v.read state.path ≡ none
        → some state ≡ some st
        → v.read st.path ≡ some bs
        → ⊥
    unread st bs e o r =
        let nothing : none ≡ some bs =
          sym e ∙ ap (λ (x : FidState). v.read x.path) (some-injective o) ∙ r in
        cc

-- In srvfs and procfs, a read of a count below 2 ^ 32 from an offset below 2 ^ 64, as the client encodes it, by a
-- fid below 2 ^ 32, panics where the build checks for overflow, the offset and the count together reach
-- 2 ^ 64, and the fid is in use and the file system has bytes to read at its path; and nowhere else.
pub read_reply-panic :
    (v : FsView) (checks : Bool) (fid offset count : ℕ) (fids : Fids)
    → fid < 2 ^ 32
    → offset < 2 ^ 64
    → count < 2 ^ 32
    → (read_reply v checks (encode_read_body fid offset count) fids ≡ panic)
      ↔ ReadPanics v checks offset count (lookup fid fids)
unfolding read_reply encode_read_body
read_reply-panic v checks fid offset count fids hf ho hc =
    rw (decode_u32-le_bytes fid _ hf, decode_u64-le_bytes offset _ ho, decode_u32_end count hc)
      (read_known-panic v checks offset count (lookup fid fids) fids)
