-- ===== src/Base/Decimal.antt =====
-- Numbers as decimal text: `to_string` and `parse` of Rust's unsigned integers.
use Prim.Native.Nat.{ℕ, zero, suc, ◌+◌, ◌-◌, ◌*◌, ◌/◌, ◌%◌, ◌≤◌, ◌<◌}
use mathlib.Core.Path.{◌≡◌, refl, ◌∙◌}
use mathlib.Core.Logic.{inl, inr, ◌≢◌}
use mathlib.Core.Bool.{◌&&◌}
use mathlib.Core.Option.{Option, none, some}
use mathlib.Core.List.{[], ◌∷◌, ◌++◌}
use native.Mathlib.Omega.{arith}
use planten.Base.Tests.{
  Option-cases, some-injective, ltb, leb, ◌==◌, if◌then◌else◌, Bool-cases, ltb→lt, ==→eq, ltb→ge,
}
use planten.Base.Text.{Str}
use planten.Base.Lists.{All, All-append}

-- The digits of `n`, of which there are at most as many as the fuel.
unfoldable pub digits : ℕ → ℕ → Str
digits zero n = []
digits (suc f) n =
    let more = digits f (n / 10) ++ ((48 + n % 10) ∷ []) in if ltb n 10 then (48 + n) ∷ [] else more

unfoldable pub to_decimal : ℕ → Str
unfolding digits
to_decimal n = digits (suc n) n

-- A digit behind the value `acc`; `none` where the type, whose values are below `bound`, overflows.
unfoldable pub add_digit : ℕ → ℕ → ℕ → Option ℕ
add_digit bound c acc =
    if leb 48 c && leb c 57
    then (if ltb (acc * 10 + (c - 48)) bound then some (acc * 10 + (c - 48)) else none)
    else none

unfoldable pub parse_digits : ℕ → ℕ → Str → Option ℕ
parse_digits bound acc [] = some acc
parse_digits bound acc (c ∷ s) = elim (add_digit bound c acc) [
  | none ↦ none
  | some n ↦ parse_digits bound n s
]

-- `str::parse`: one sign `+` may stand in front of the digits, of which there is one at least.
unfoldable pub parse_uint : ℕ → Str → Option ℕ
unfolding parse_digits
parse_uint bound [] = none
parse_uint bound (c ∷ []) = parse_digits bound 0 (c ∷ [])
parse_uint bound (c ∷ d ∷ s) = parse_digits bound 0 (if c == b'+' then d ∷ s else c ∷ d ∷ s)

add_digit-lt : (bound c acc n : ℕ) → add_digit bound c acc ≡ some n → n < bound
unfolding add_digit
add_digit-lt bound c acc n e = ground arith

parse_digits-lt :
    (bound acc : ℕ) (s : Str) (n : ℕ) → acc < bound → parse_digits bound acc s ≡ some n → n < bound
unfolding parse_digits
parse_digits-lt bound acc [] n h e = ground arith
parse_digits-lt bound acc (c ∷ s) n h e = elim (Option-cases (add_digit bound c acc)) [
  | inl none_here ↦ cc (rw (none_here, parse_digits) at e)
  | inr (m, found) ↦
      parse_digits-lt bound m s n (add_digit-lt bound c acc m found) (rw (found, parse_digits) at e)
]

-- Every value that is parsed fits the type.
pub parse_uint-lt :
    (bound : ℕ) (s : Str) (n : ℕ) → 0 < bound → parse_uint bound s ≡ some n → n < bound
unfolding parse_uint
parse_uint-lt bound [] n h e = cc
parse_uint-lt bound (c ∷ []) n h e = parse_digits-lt bound 0 (c ∷ []) n h e
parse_uint-lt bound (c ∷ d ∷ s) n h e =
    parse_digits-lt bound 0 (if c == b'+' then d ∷ s else c ∷ d ∷ s) n h e

parse_digits-append_one :
    (bound acc : ℕ) (s : Str) (c n : ℕ)
    → parse_digits bound acc s ≡ some n
    → parse_digits bound acc (s ++ (c ∷ [])) ≡ add_digit bound c n
unfolding parse_digits
parse_digits-append_one bound acc [] c n e =
    rw (some-injective e) (elim (Option-cases (add_digit bound c n)) [
      | inl q ↦ rw (q, parse_digits) refl
      | inr (m, q) ↦ rw (q, parse_digits) refl
    ])
parse_digits-append_one bound acc (d ∷ s) c n e = elim (Option-cases (add_digit bound d acc)) [
  | inl none_here ↦ cc (rw (none_here, parse_digits) at e)
  | inr (m, found) ↦
      rw (found, parse_digits)
        (parse_digits-append_one bound m s c n (rw (found, parse_digits) at e))
]

add_digit-digit : (bound m : ℕ) → m < bound → add_digit bound (48 + m % 10) (m / 10) ≡ some m
unfolding add_digit
add_digit-digit bound m h = ground arith

parse_one : (bound n : ℕ) → n < 10 → n < bound → parse_digits bound 0 ((48 + n) ∷ []) ≡ some n
unfolding parse_digits add_digit
parse_one bound n h k = ground arith

parse_digits-digits :
    (bound f n : ℕ) → n < f → n < bound → parse_digits bound 0 (digits f n) ≡ some n
unfolding digits
parse_digits-digits bound zero n h k = absurd (omega arith)
parse_digits-digits bound (suc f) n h k = elim (Bool-cases (ltb n 10)) [
  | inl e ↦ rw e (parse_one bound n (ltb→lt n 10 e) k)
  | inr e ↦
      let big = ltb→ge n 10 e in
      rw
        (
          e,
          parse_digits-append_one bound 0 (digits f (n / 10)) (48 + n % 10) (n / 10)
              (parse_digits-digits bound f (n / 10) (omega arith) (omega arith)),
        )
        (add_digit-digit bound n k)
]

-- A text of digits has no sign in front, so that `parse` reads it as digits.
abbrev pub AllDigits : Str → Type 0
AllDigits s = All (λ c. (48 ≤ c) × (c ≤ 57)) s

parse_uint-AllDigits :
    (bound : ℕ) (s : Str) → AllDigits s → s ≢ [] → parse_uint bound s ≡ parse_digits bound 0 s
unfolding parse_uint
parse_uint-AllDigits bound [] h k = absurd (k refl)
parse_uint-AllDigits bound (c ∷ []) h k = refl
parse_uint-AllDigits bound (c ∷ d ∷ s) h k = elim (Bool-cases (c == b'+')) [
  | inl e ↦ absurd (omega (arith, ==→eq c b'+' e, h.0.0))
  | inr e ↦ rw e refl
]

digits-AllDigits : (f n : ℕ) → AllDigits (digits f n)
unfolding digits
digits-AllDigits zero n = tt
digits-AllDigits (suc f) n = elim (Bool-cases (ltb n 10)) [
  | inl e ↦ rw e (omega (arith, ltb→lt n 10 e))
  | inr e ↦ rw e (
      All-append (λ c. (48 ≤ c) × (c ≤ 57)) (digits f (n / 10)) _ (digits-AllDigits f (n / 10))
        (omega arith))
]

append_one-ne-nil : (s : Str) (c : ℕ) → s ++ (c ∷ []) ≢ []
append_one-ne-nil [] c h = cc
append_one-ne-nil (d ∷ s) c h = cc

digits-ne-nil : (f n : ℕ) → n < f → digits f n ≢ []
unfolding digits
digits-ne-nil zero n h = absurd (omega arith)
digits-ne-nil (suc f) n h = elim (Bool-cases (ltb n 10)) [
  | inl e ↦ rw e (λ p. cc)
  | inr e ↦ rw e (append_one-ne-nil (digits f (n / 10)) (48 + n % 10))
]

-- `parse` is the inverse of `to_string`, at the numbers of the type.
pub parse_uint-to_decimal : (bound n : ℕ) → n < bound → parse_uint bound (to_decimal n) ≡ some n
unfolding to_decimal
parse_uint-to_decimal bound n h =
    parse_uint-AllDigits bound (digits (suc n) n) (digits-AllDigits (suc n) n)
      (digits-ne-nil (suc n) n (omega arith))
    ∙ parse_digits-digits bound (suc n) n (omega arith) h

pub to_decimal-AllDigits : (n : ℕ) → AllDigits (to_decimal n)
unfolding to_decimal
to_decimal-AllDigits n = digits-AllDigits (suc n) n

pub to_decimal-ne-nil : (n : ℕ) → to_decimal n ≢ []
unfolding to_decimal
to_decimal-ne-nil n = digits-ne-nil (suc n) n (omega arith)
