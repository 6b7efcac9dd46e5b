-- ===== src/Tools/Address/Parts.antt =====
-- What the steps of `parse_9p_addr` of userspace/planten_coreutils/src/bin/10_ns.rs make of the parts of an
-- address.
use planten.Base.{ℕ, ◌<◌, ◌^◌, ◌≡◌, ◌≢◌, refl, arith, true, false}
use planten.Base.{inl, inr, ◌==◌, [], ◌∷◌, ◌++◌}
use planten.Base.{Str, All, ◌⊎◌}
use planten.Base.{to_decimal, AllDigits, to_decimal-AllDigits}
use planten.Base.{parse_uint-to_decimal}
use planten.Fs.FilePath.{non_empty}
use planten.Tools.Text.{trim, is_empty, split_by, contains_char, count_char, starts_with}
use planten.Tools.Text.{is_whitespace, Without, contains_char-Without, contains_char-append}
use planten.Tools.Text.{count_char-Without, count_char-append, trim-ne-nil}
use planten.Tools.Text.{split_by-Without, split_by-append}
use planten.Tools.Address.{host_port, with_port}
use planten.Tools.Address.{parse_remainder}

AllDigits-Without : (c : ℕ) (s : Str) → (c < 48) ⊎ (57 < c) → AllDigits s → Without c s
AllDigits-Without c [] h k = tt
AllDigits-Without c (d ∷ s) (inl h) (k, ks) = (λ e. omega arith, AllDigits-Without c s (inl h) ks)
AllDigits-Without c (d ∷ s) (inr h) (k, ks) = (λ e. omega arith, AllDigits-Without c s (inr h) ks)

pub port-Without : (c port : ℕ) → (c < 48) ⊎ (57 < c) → Without c (to_decimal port)
port-Without c port h = AllDigits-Without c (to_decimal port) h (to_decimal-AllDigits port)

pub with_port-to_decimal :
    (addr host : Str) (port : ℕ)
    → port < 2 ^ 16
    → with_port addr host (to_decimal port) ≡ host_port host port
unfolding with_port
with_port-to_decimal addr host port h = rw (parse_uint-to_decimal (2 ^ 16) port h, with_port) refl

pub is_empty-ne : (s : Str) → s ≢ [] → is_empty s ≡ false
is_empty-ne [] h = absurd (h refl)
is_empty-ne (c ∷ s) h = refl

pub visible_here :
    (s t : Str) (c : ℕ) → is_whitespace c ≡ false → is_empty (trim (s ++ (c ∷ t))) ≡ false
visible_here s t c h = is_empty-ne (trim (s ++ (c ∷ t))) (trim-ne-nil s t c h)

pub no_char :
    (c d : ℕ) (s t : Str)
    → Without c s
    → (d == c) ≡ false
    → Without c t
    → contains_char c (s ++ (d ∷ t)) ≡ false
unfolding contains_char
no_char c d s t h k ts =
    rw
      (
        contains_char-append c s (d ∷ t),
        contains_char-Without c s h,
        k,
        contains_char-Without c t ts,
      )
      refl

pub starts_with-append :
    (c d : ℕ) (s t : Str)
    → starts_with c s ≡ false
    → (d == c) ≡ false
    → starts_with c (s ++ (d ∷ t)) ≡ false
starts_with-append c d [] t h k = k
starts_with-append c d (e ∷ s) t h k = h

pub one_colon :
    (s t : Str) → Without b':' s → Without b':' t → count_char b':' (s ++ (b':' ∷ t)) ≡ 1
unfolding count_char
one_colon s t h k =
    rw
      (
        count_char-append b':' s (b':' ∷ t),
        count_char-Without b':' s h,
        count_char-Without b':' t k,
      )
      refl

pub remainder_at_digits :
    (addr host s : Str) → s ≢ [] → parse_remainder addr host (b':' ∷ s) ≡ with_port addr host s
unfolding parse_remainder
remainder_at_digits addr host [] k = absurd (k refl)
remainder_at_digits addr host (d ∷ s) k = refl

separators_false : (s : Str) → Without b'!' s → All (λ d. (d == b'!') ≡ false) s
separators_false [] h = tt
separators_false (d ∷ s) (h, hs) = (ground arith, separators_false s hs)

pub dialled-parts :
    (proto host port : Str)
    → Without b'!' proto
    → Without b'!' host
    → Without b'!' port
    → split_by (λ c. c == b'!') (proto ++ (b'!' ∷ (host ++ (b'!' ∷ port))))
      ≡ proto ∷ host ∷ port ∷ []
dialled-parts proto host port h k l =
    rw
      (
        split_by-append (λ c. c == b'!') proto (host ++ (b'!' ∷ port)) b'!'
            (separators_false proto h) refl,
        split_by-append (λ c. c == b'!') host port b'!' (separators_false host k) refl,
        split_by-Without (λ c. c == b'!') port (separators_false port l),
      )
      refl

pub all_non_empty :
    (p q r : Str) → p ≢ [] → q ≢ [] → r ≢ [] → non_empty (p ∷ q ∷ r ∷ []) ≡ p ∷ q ∷ r ∷ []
unfolding non_empty
all_non_empty [] q r h k l = absurd (h refl)
all_non_empty (a ∷ p) [] r h k l = absurd (k refl)
all_non_empty (a ∷ p) (b ∷ q) [] h k l = absurd (l refl)
all_non_empty (a ∷ p) (b ∷ q) (c ∷ r) h k l = refl

pub has_mark : (s t : Str) → contains_char b'!' (s ++ (b'!' ∷ t)) ≡ true
unfolding contains_char
has_mark [] t = refl
has_mark (d ∷ s) t = ground (arith, has_mark s t)
