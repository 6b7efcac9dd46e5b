-- ===== src/Ramfs/Server/Total.antt =====
-- The fuel of `handle_client` of libs/planten_fs_ramfs/src/server.rs.
use planten.Base.{ℕ, zero, suc, ◌<◌, ◌≢◌, arith}
use planten.Base.{inl, inr, Str}
use planten.Base.{length, Res-cases, ErrorKind}
use planten.Wire.Frame.{read_from}
use planten.Wire.Framing.{length-read_from}
use planten.Ramfs.Server.State.{Server}
use planten.Ramfs.Server.Dispatch.{Env, dispatch, serve, handle_client, out_of_fuel, read_error}

read_error-ne : (e : ErrorKind) → read_error e ≢ out_of_fuel
read_error-ne ErrorKind.unexpected_eof h = cc
read_error-ne ErrorKind.invalid_data h = cc

serve-ends :
    (envs : ℕ → Env) (fuel : ℕ) (input : Str) (s : Server)
    → length input < fuel
    → (serve envs fuel input s).end ≢ out_of_fuel
unfolding serve
serve-ends envs zero input s h = absurd (omega arith)
serve-ends envs (suc fuel) input s h = elim (Res-cases (read_from input)) [
  | inl ((m, rest), e) ↦ elim (Res-cases (dispatch (envs fuel) m s)) [
    | inl ((r, s'), d) ↦
        rw (e, serve, d)
          (serve-ends envs fuel rest s' (omega (arith, length-read_from input m rest e)))
    | inr (inl (x, d)) ↦ rw (e, serve, d) (λ p. cc)
    | inr (inr d) ↦ rw (e, serve, d) (λ p. cc)
  ]
  | inr (inl (x, e)) ↦ rw (e, serve) (read_error-ne x)
  | inr (inr e) ↦ rw (e, serve) (λ p. cc)
]

-- On every input stream the loop ends within its fuel: by the end of the stream, an error or a panic.
pub handle_client-ends :
    (envs : ℕ → Env) (input : Str) (s : Server) → (handle_client envs input s).end ≢ out_of_fuel
unfolding handle_client
handle_client-ends envs input s = serve-ends envs (suc (length input)) input s (omega arith)
