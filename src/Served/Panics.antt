-- ===== src/Served/Panics.antt =====
-- Which messages make the servers of libs/planten_fs_srv/src/server.rs and
-- libs/planten_fs_dev/src/server.rs panic.
use planten.Base.{
  ℕ, zero, suc, ge→ltb, ◌≡◌, refl, arith, Bool, true, false, Option, none, some, inl, inr,
}
use planten.Base.{◌⊎◌, Res, panic, [], ◌∷◌, Str, length, lookup, if◌then◌else◌, ◌==◌}
use planten.Base.{min, ◌%◌, ltb→lt, ok, Bool-cases, ==→eq, ltb, ◌↔◌, ◌+◌, ◌^◌}
use planten.Wire.Types.{RawMessage}
use planten.Wire.Bytes.{read_exact}
use planten.Wire.Decode.{decode_string, decode_u16, decode_u32, decode_u64}
use mathlib.Core.Path.{subst}
use planten.Wire.Messages.{tversion, tattach, twalk, topen, tread, tstat, tclunk}
use planten.Ramfs.Bytes.{add_usize, slice_of, slice_of-fits}
use planten.Ramfs.Server.State.{FidState, Reply}
use planten.Ramfs.Server.Panics.{
  NoPanic, NoPanic-bind, decode_u16-NoPanic, decode_u32-NoPanic, read_exact-NoPanic,
}
use planten.Ramfs.Server.Panics.{decode_string-NoPanic}
use planten.Served.View.{FsView, read_names, read_slice}
use planten.Served.Opening.{
  Fids, version_reply, attach_reply, walk_reply, open_reply, read_found, read_known,
}
use planten.Served.Opening.{read_reply, stat_reply, clunk_reply, answer}

pub decode_u64-NoPanic : (c : Str) → NoPanic (decode_u64 c)
unfolding decode_u64
decode_u64-NoPanic c = NoPanic-bind (read_exact 8 c) _ (read_exact-NoPanic 8 c) λ x. tt

pub read_names-NoPanic : (n : ℕ) (c : Str) → NoPanic (read_names n c)
unfolding read_names
read_names-NoPanic zero c = tt
read_names-NoPanic (suc n) c =
    NoPanic-bind (decode_string c) _ (decode_string-NoPanic c)
      λ (name, c). NoPanic-bind (read_names n c) _ (read_names-NoPanic n c) λ (names, c). tt

pub never : {A : Type 0} {S : Type 0} (d : Res A) → NoPanic d → d ≡ panic → S
never d h e = absurd (subst (λ x. NoPanic x) e h)

-- A slice that is taken only where its start is below its end, and whose end is cut to the bytes, is in range.
pub slice-NoPanic :
    (start sum : ℕ) (bs : Str)
    → NoPanic
        (if ltb start (min sum (length bs)) then slice_of start (min sum (length bs)) bs else ok [])
slice-NoPanic start sum bs = elim (Bool-cases (ltb start (min sum (length bs)))) [
  | inl e ↦
      rw
        (
          e,
          slice_of-fits start (min sum (length bs)) bs (omega (arith, ltb→lt _ _ e)) (omega arith),
        )
        tt
  | inr e ↦ rw e tt
]

-- Without overflow checks, no read of a file panics.
pub read_slice-NoPanic : (offset count : ℕ) (bs : Str) → NoPanic (read_slice false offset count bs)
unfolding read_slice add_usize
read_slice-NoPanic offset count bs = elim (Bool-cases (ltb (offset + count) (2 ^ 64))) [
  | inl e ↦ rw e (slice-NoPanic offset (offset + count) bs)
  | inr e ↦ rw e (slice-NoPanic offset ((offset + count) % 2 ^ 64) bs)
]

version_reply-NoPanic : (body : Str) (fids : Fids) → NoPanic (version_reply body fids)
unfolding version_reply
version_reply-NoPanic body fids =
    NoPanic-bind (decode_u32 body) _ (decode_u32-NoPanic body)
      λ (msize, c). NoPanic-bind (decode_string c) _ (decode_string-NoPanic c) λ (version, c). tt

attach_reply-NoPanic : (body : Str) (fids : Fids) → NoPanic (attach_reply body fids)
unfolding attach_reply
attach_reply-NoPanic body fids =
    NoPanic-bind (decode_u32 body) _ (decode_u32-NoPanic body) λ (fid, c).
      NoPanic-bind (decode_u32 c) _ (decode_u32-NoPanic c) λ (afid, c).
        NoPanic-bind (decode_string c) _ (decode_string-NoPanic c)
          λ (uname, c). NoPanic-bind (decode_string c) _ (decode_string-NoPanic c) λ (aname, c). tt

walk_reply-NoPanic : (v : FsView) (body : Str) (fids : Fids) → NoPanic (walk_reply v body fids)
unfolding walk_reply
walk_reply-NoPanic v body fids =
    NoPanic-bind (decode_u32 body) _ (decode_u32-NoPanic body) λ (fid, c).
      NoPanic-bind (decode_u32 c) _ (decode_u32-NoPanic c) λ (newfid, c).
        NoPanic-bind (decode_u16 c) _ (decode_u16-NoPanic c)
          λ (n, c). NoPanic-bind (read_names n c) _ (read_names-NoPanic n c) λ (names, c). tt

read_reply-NoPanic :
    (v : FsView) (body : Str) (fids : Fids) → NoPanic (read_reply v false body fids)
unfolding read_reply
read_reply-NoPanic v body fids =
    NoPanic-bind (decode_u32 body) _ (decode_u32-NoPanic body) λ (fid, c).
      NoPanic-bind (decode_u64 c) _ (decode_u64-NoPanic c) λ (offset, c).
        NoPanic-bind (decode_u32 c) _ (decode_u32-NoPanic c)
          λ (count, c). known offset count (lookup fid fids)
  where
    found : (offset count : ℕ) (o : Option Str) → NoPanic (read_found false offset count o fids)
    found offset count none = unfold read_found in tt
    found offset count (some bs) =
        unfold read_found in
        NoPanic-bind (read_slice false offset count bs) _ (read_slice-NoPanic offset count bs)
          λ slice. tt

    known :
        (offset count : ℕ) (o : Option FidState) → NoPanic (read_known v false offset count o fids)
    known offset count none = unfold read_known in tt
    known offset count (some state) = unfold read_known in found offset count (v.read state.path)

-- An open whose body has four bytes, and no other, panics.
pub open_reply-panic :
    (v : FsView) (body : Str) (fids : Fids) → (open_reply v body fids ≡ panic) ↔ (length body ≡ 4)
unfolding open_reply decode_u32 read_exact
open_reply-panic v [] fids = (λ p. cc, λ h. cc)
open_reply-panic v (a ∷ []) fids = (λ p. cc, λ h. absurd (omega arith))
open_reply-panic v (a ∷ b ∷ []) fids = (λ p. cc, λ h. absurd (omega arith))
open_reply-panic v (a ∷ b ∷ c ∷ []) fids = (λ p. cc, λ h. absurd (omega arith))
open_reply-panic v (a ∷ b ∷ c ∷ d ∷ []) fids = (λ p. refl, λ h. refl)
open_reply-panic v (a ∷ b ∷ c ∷ d ∷ e ∷ rest) fids = (
  λ p. cc (rw (ge→ltb (suc (suc (suc (suc (suc (length rest)))))) 4 (omega arith)) at p),
  λ h. absurd (omega arith),
)

stat_reply-NoPanic : (v : FsView) (body : Str) (fids : Fids) → NoPanic (stat_reply v body fids)
unfolding stat_reply
stat_reply-NoPanic v body fids =
    NoPanic-bind (decode_u32 body) _ (decode_u32-NoPanic body) λ (fid, c). tt

clunk_reply-NoPanic : (body : Str) (fids : Fids) → NoPanic (clunk_reply body fids)
unfolding clunk_reply
clunk_reply-NoPanic body fids =
    NoPanic-bind (decode_u32 body) _ (decode_u32-NoPanic body) λ (fid, c). tt

-- When a handler can panic.
abbrev pub MayPanic : Bool → RawMessage → Type 0
MayPanic checks m =
    ((m.msg_type ≡ topen) × (length m.body ≡ 4)) ⊎ ((m.msg_type ≡ tread) × (checks ≡ true))

pub if_intro :
    {A : Type 0} (P : A → Type 0) (a b : ℕ) (m n : A)
    → (a ≡ b → P m)
    → P n
    → P (if a == b then m else n)
if_intro P a b m n h k = elim (Bool-cases (a == b)) [
  | inl e ↦ rw e (h (==→eq a b e))
  | inr e ↦ rw e k
]

-- In srvfs and procfs, only an open whose body has four bytes panics, and in a build with overflow checks
-- a read.
pub answer-panic :
    (v : FsView) (checks : Bool) (m : RawMessage) (fids : Fids)
    → answer v checks m fids ≡ panic
    → MayPanic checks m
unfolding answer
answer-panic v checks m fids =
    let P = λ (d : Res (Reply × Fids)). d ≡ panic → MayPanic checks m in
    if_intro P m.msg_type tversion _ _ (λ _. never _ (version_reply-NoPanic m.body fids))
      (if_intro P m.msg_type tattach _ _ (λ _. never _ (attach_reply-NoPanic m.body fids))
        (if_intro P m.msg_type twalk _ _ (λ _. never _ (walk_reply-NoPanic v m.body fids))
          (if_intro P m.msg_type topen _ _ (λ e p. inl (e, (open_reply-panic v m.body fids).0 p))
            (if_intro P m.msg_type tread _ _ (λ e. read_case checks e)
              (if_intro P m.msg_type tstat _ _ (λ _. never _ (stat_reply-NoPanic v m.body fids))
                (if_intro P m.msg_type tclunk _ _ (λ _. never _ (clunk_reply-NoPanic m.body fids))
                  (λ p. cc)))))))
  where
    read_case : (c : Bool) → m.msg_type ≡ tread → read_reply v c m.body fids ≡ panic → MayPanic c m
    read_case true e p = inr (e, refl)
    read_case false e p = never _ (read_reply-NoPanic v m.body fids) p
