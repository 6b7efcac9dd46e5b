-- ===== src/Tools/Text.antt =====
-- The methods of `str` that userspace/planten_coreutils/src/bin/10_ns.rs calls.
use planten.Base.{ℕ, ◌+◌, ◌≡◌, ◌≢◌, ◌⊎◌, refl, arith, Bool, true, false, ◌&&◌, ◌||◌, leb, ◌==◌}
use planten.Base.{if◌then◌else◌, Option, none, some, List, [], ◌∷◌, ◌++◌, Str, Bool-cases, inl, inr}
use planten.Base.{All}

-- `char::is_whitespace`
unfoldable pub is_whitespace : ℕ → Bool
is_whitespace c =
    (leb 0x09 c && leb c 0x0d)
    || (c == 0x20
        || (c == 0x85
            || (c == 0xa0
                || (c == 0x1680
                    || ((leb 0x2000 c && leb c 0x200a)
                        || (c == 0x2028
                            || (c == 0x2029 || (c == 0x202f || (c == 0x205f || c == 0x3000)))))))))

unfoldable pub trim_start : Str → Str
trim_start [] = []
trim_start (c ∷ s) = let rest = trim_start s in if is_whitespace c then rest else c ∷ s

abbrev cons_visible : ℕ → Str → Str
cons_visible c [] = if is_whitespace c then [] else c ∷ []
cons_visible c (d ∷ s) = c ∷ d ∷ s

unfoldable pub trim_end : Str → Str
trim_end [] = []
trim_end (c ∷ s) = cons_visible c (trim_end s)

unfoldable pub trim : Str → Str
trim s = trim_end (trim_start s)

abbrev pub is_empty {ℓ} : {A : Type ℓ} → List A → Bool
is_empty [] = true
is_empty (x ∷ xs) = false

-- Another character of the first piece.
abbrev push : ℕ → List Str → List Str
push c [] = (c ∷ []) ∷ []
push c (p ∷ ps) = (c ∷ p) ∷ ps

-- `split` at the characters of a class.
unfoldable pub split_by : (ℕ → Bool) → Str → List Str
split_by sep [] = [] ∷ []
split_by sep (c ∷ s) = let rest = split_by sep s in if sep c then [] ∷ rest else push c rest

unfoldable pub contains_char : ℕ → Str → Bool
contains_char c [] = false
contains_char c (d ∷ s) = d == c || contains_char c s

-- `matches(c).count()`
unfoldable pub count_char : ℕ → Str → ℕ
count_char c [] = 0
count_char c (d ∷ s) = (if d == c then 1 else 0) + count_char c s

abbrev before : ℕ → Option (Str × Str) → Option (Str × Str)
before c none = none
before c (some (s, t)) = some (c ∷ s, t)

-- What stands before and behind the first `c`: `find` and the two slices.
unfoldable pub cut : ℕ → Str → Option (Str × Str)
cut c [] = none
cut c (d ∷ s) = let later = before d (cut c s) in if d == c then some ([], s) else later

abbrev pub starts_with : ℕ → Str → Bool
starts_with c [] = false
starts_with c (d ∷ s) = d == c

-- A text without the character.
abbrev pub Without : ℕ → Str → Type 0
Without c s = All (λ d. d ≢ c) s

pub contains_char-Without : (c : ℕ) (s : Str) → Without c s → contains_char c s ≡ false
unfolding contains_char
contains_char-Without c [] h = refl
contains_char-Without c (d ∷ s) (h, hs) = ground (arith, contains_char-Without c s hs)

pub contains_char-append :
    (c : ℕ) (s t : Str) → contains_char c (s ++ t) ≡ (contains_char c s || contains_char c t)
unfolding contains_char
contains_char-append c [] t = refl
contains_char-append c (d ∷ s) t = ground (arith, contains_char-append c s t)

pub count_char-Without : (c : ℕ) (s : Str) → Without c s → count_char c s ≡ 0
unfolding count_char
count_char-Without c [] h = refl
count_char-Without c (d ∷ s) (h, hs) = ground (arith, count_char-Without c s hs)

pub count_char-append :
    (c : ℕ) (s t : Str) → count_char c (s ++ t) ≡ count_char c s + count_char c t
unfolding count_char
count_char-append c [] t = omega arith
count_char-append c (d ∷ s) t = ground (arith, count_char-append c s t)

pub cut-append : (c : ℕ) (s t : Str) → Without c s → cut c (s ++ (c ∷ t)) ≡ some (s, t)
unfolding cut
cut-append c [] t h = ground arith
cut-append c (d ∷ s) t (h, hs) = ground (arith, cut-append c s t hs)

trim_start-keeps :
    (s t : Str) (c : ℕ)
    → is_whitespace c ≡ false
    → (kept : Str) × (trim_start (s ++ (c ∷ t)) ≡ kept ++ (c ∷ t))
unfolding trim_start
trim_start-keeps [] t c h = ([], rw h refl)
trim_start-keeps (d ∷ s) t c h = elim (Bool-cases (is_whitespace d)) [
  | inl e ↦ let (kept, q) = trim_start-keeps s t c h in (kept, rw e q)
  | inr e ↦ (d ∷ s, rw e refl)
]

cons_visible-ne-nil :
    (d : ℕ) (r : Str) → (is_whitespace d ≡ false) ⊎ (r ≢ []) → cons_visible d r ≢ []
cons_visible-ne-nil d [] (inl h) = rw h (λ p. cc)
cons_visible-ne-nil d [] (inr h) = absurd (h refl)
cons_visible-ne-nil d (x ∷ r) h = λ p. cc

trim_end-ne-nil : (s t : Str) (c : ℕ) → is_whitespace c ≡ false → trim_end (s ++ (c ∷ t)) ≢ []
unfolding trim_end
trim_end-ne-nil [] t c h = cons_visible-ne-nil c (trim_end t) (inl h)
trim_end-ne-nil (d ∷ s) t c h =
    cons_visible-ne-nil d (trim_end (s ++ (c ∷ t))) (inr (trim_end-ne-nil s t c h))

-- A text with a visible character is not blank.
pub trim-ne-nil : (s t : Str) (c : ℕ) → is_whitespace c ≡ false → trim (s ++ (c ∷ t)) ≢ []
unfolding trim
trim-ne-nil s t c h = let (kept, q) = trim_start-keeps s t c h in rw q (trim_end-ne-nil kept t c h)

pub split_by-Without :
    (sep : ℕ → Bool) (s : Str) → All (λ c. sep c ≡ false) s → split_by sep s ≡ s ∷ []
unfolding split_by
split_by-Without sep [] h = refl
split_by-Without sep (c ∷ s) (h, hs) = rw (h, split_by-Without sep s hs) refl

-- Splitting at a separator between two texts, of which the first has none.
pub split_by-append :
    (sep : ℕ → Bool) (s t : Str) (c : ℕ)
    → All (λ d. sep d ≡ false) s
    → sep c ≡ true
    → split_by sep (s ++ (c ∷ t)) ≡ s ∷ split_by sep t
unfolding split_by
split_by-append sep [] t c h k = rw k refl
split_by-append sep (d ∷ s) t c (h, hs) k = rw (h, split_by-append sep s t c hs k) refl
