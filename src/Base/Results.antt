-- ===== src/Base/Results.antt =====
-- `io::Result` of the Rust code, with the panics of `unwrap`, indexing and checked arithmetic.
use mathlib.Core.Path.{◌≡◌, refl}
use mathlib.Core.Option.{Option, none, some}
use mathlib.Core.Path.{subst}
use mathlib.Core.Logic.{◌⊎◌, inl, inr}

-- The kinds of `io::Error` that the code makes or that `read_exact` returns.
pub data ErrorKind : Type 0 where
  unexpected_eof invalid_data : ErrorKind

pub data Res {ℓ} (A : Type ℓ) : Type ℓ where
  ok : A → Res A
  err : ErrorKind → Res A
  panic : Res A

infixl 5 ◌>>=◌ ◌>>◌
abbrev pub ◌>>=◌ {ℓ κ} : {A : Type ℓ} {B : Type κ} → Res A → (A → Res B) → Res B
ok a >>= f = f a
err e >>= f = err e
panic >>= f = panic

abbrev pub ◌>>◌ {ℓ κ} : {A : Type ℓ} {B : Type κ} → Res A → Res B → Res B
m >> k = m >>= λ _. k

-- `Option::unwrap`
abbrev pub unwrap {ℓ} : {A : Type ℓ} → Option A → Res A
unwrap none = panic
unwrap (some a) = ok a

pub bind-eq-ok {ℓ κ} :
    {A : Type ℓ} {B : Type κ} (first : Res A) (next : A → Res B) {result : B}
    → (first >>= next) ≡ ok result
    → (value : A) × (first ≡ ok value) × (next value ≡ ok result)
bind-eq-ok (ok value) next h = (value, refl, h)
bind-eq-ok (err e) next h = cc
bind-eq-ok panic next h = cc

pub ok-injective {ℓ} : {A : Type ℓ} {a b : A} → ok a ≡ ok b → a ≡ b
ok-injective h = cc

-- A value that comes back satisfies `P`; errors and panics are left out.
abbrev pub Returns {ℓ κ} : {A : Type ℓ} → (A → Type κ) → Res A → Type κ
Returns P (ok a) = P a
Returns P (err e) = Unit
Returns P panic = Unit

pub Returns-bind {ℓ κ μ} :
    {A : Type ℓ} {B : Type κ} (P : B → Type μ) (m : Res A) (f : A → Res B)
    → ((a : A) → m ≡ ok a → Returns P (f a))
    → Returns P (m >>= f)
Returns-bind P (ok a) f h = h a refl
Returns-bind P (err e) f h = tt
Returns-bind P panic f h = tt

pub Returns-eq_ok {ℓ κ} :
    {A : Type ℓ} (P : A → Type κ) (m : Res A) (a : A) → Returns P m → m ≡ ok a → P a
Returns-eq_ok P m a h e = subst (λ x. Returns P x) e h

pub Res-cases {ℓ} :
    {A : Type ℓ} (r : Res A)
    → ((a : A) × (r ≡ ok a)) ⊎ (((e : ErrorKind) × (r ≡ err e)) ⊎ (r ≡ panic))
Res-cases (ok a) = inl (a, refl)
Res-cases (err e) = inr (inl (e, refl))
Res-cases panic = inr (inr refl)
