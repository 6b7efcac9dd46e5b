-- ===== src/Served/Loop.antt =====
-- The loop of `handle_client` in libs/planten_fs_srv/src/server.rs, and its like in the servers of procfs,
-- devfs and netfs: a message is read, handled and answered until the stream ends.
use planten.Base.{
  ℕ, zero, suc, ◌<◌, ◌≢◌, arith, Res, ok, err, panic, inl, inr, [], ◌++◌, Str, length, Res-cases,
}
use planten.Base.{ErrorKind}
use planten.Wire.Types.{RawMessage}
use planten.Wire.Frame.{build_frame, read_from}
use planten.Wire.Framing.{length-read_from}
use planten.Ramfs.Server.State.{Reply}
use planten.Ramfs.Server.Dispatch.{End, out_of_fuel, panicked, read_error, failed}

pub record Session (S : Type 0) : Type 0 where
  pub sent : Str
  pub state : S
  pub end : End

module _ {S : Type 0} (handle : ℕ → RawMessage → S → Res (Reply × S)) where
  -- `handle n` answers the message before the last `n` of fuel.
  unfoldable pub serve_all : ℕ → Str → S → Session S
  serve_all zero input s = record { sent = []; state = s; end = out_of_fuel }
  serve_all (suc fuel) input s = elim (read_from input) [
    | err e ↦ record { sent = []; state = s; end = read_error e }
    | panic ↦ record { sent = []; state = s; end = panicked }
    | ok (m, rest) ↦ elim (handle fuel m s) [
      | err e ↦ record { sent = []; state = s; end = failed e }
      | panic ↦ record { sent = []; state = s; end = panicked }
      | ok (r, s') ↦
          let session = serve_all fuel rest s' in
          record session { sent = build_frame r.msg_type m.tag r.body ++ session.sent }
    ]
  ]

  -- A message takes seven bytes of the stream at least, so this fuel is enough.
  unfoldable pub serve_stream : Str → S → Session S
  serve_stream input s = serve_all (suc (length input)) input s

  serve_all-ends :
      (fuel : ℕ) (input : Str) (s : S)
      → length input < fuel
      → (serve_all fuel input s).end ≢ out_of_fuel
  unfolding serve_all
  serve_all-ends zero input s h = absurd (omega arith)
  serve_all-ends (suc fuel) input s h = elim (Res-cases (read_from input)) [
    | inl ((m, rest), e) ↦ elim (Res-cases (handle fuel m s)) [
      | inl ((r, s'), d) ↦
          rw (e, serve_all, d)
            (serve_all-ends fuel rest s' (omega (arith, length-read_from input m rest e)))
      | inr (inl (x, d)) ↦ rw (e, serve_all, d) (λ p. cc)
      | inr (inr d) ↦ rw (e, serve_all, d) (λ p. cc)
    ]
    | inr (inl (x, e)) ↦ rw (e, serve_all) (ends_by_error x)
    | inr (inr e) ↦ rw (e, serve_all) (λ p. cc)
  ]
    where
      ends_by_error : (x : ErrorKind) → read_error x ≢ out_of_fuel
      ends_by_error ErrorKind.unexpected_eof h = cc
      ends_by_error ErrorKind.invalid_data h = cc

  pub serve_stream-ends : (input : Str) (s : S) → (serve_stream input s).end ≢ out_of_fuel
  unfolding serve_stream
  serve_stream-ends input s = serve_all-ends (suc (length input)) input s (omega arith)
