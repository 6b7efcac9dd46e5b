-- ===== src/Wire/Utf8.antt =====
-- `String::from_utf8`: the well-formed byte sequences of the Unicode standard (table 3-7).
use planten.Base.{ℕ, ◌≡◌, refl, arith, Bool, true, false, ◌&&◌, Option, none, some}
use planten.Base.{List, [], ◌∷◌, ◌++◌, leb, if◌then◌else◌, Str}

abbrev tail_byte : ℕ × ℕ
tail_byte = (0x80, 0xbf)

-- The ranges of the bytes that have to follow a first byte.
following : ℕ → Option (List (ℕ × ℕ))
following b =
    if leb b 0x7f
    then some []
    else if leb 0xc2 b && leb b 0xdf
    then some (tail_byte ∷ [])
    else if leb 0xe0 b && leb b 0xe0
    then some ((0xa0, 0xbf) ∷ tail_byte ∷ [])
    else if leb 0xed b && leb b 0xed
    then some ((0x80, 0x9f) ∷ tail_byte ∷ [])
    else if leb 0xe1 b && leb b 0xef
    then some (tail_byte ∷ tail_byte ∷ [])
    else if leb 0xf0 b && leb b 0xf0
    then some ((0x90, 0xbf) ∷ tail_byte ∷ tail_byte ∷ [])
    else if leb 0xf1 b && leb b 0xf3
    then some (tail_byte ∷ tail_byte ∷ tail_byte ∷ [])
    else if leb 0xf4 b && leb b 0xf4
    then some ((0x80, 0x8f) ∷ tail_byte ∷ tail_byte ∷ [])
    else none

utf8_from : List (ℕ × ℕ) → Str → Bool
utf8_from [] [] = true
utf8_from (r ∷ rs) [] = false
utf8_from [] (b ∷ s) = elim (following b) [ none ↦ false | some rs ↦ utf8_from rs s ]
utf8_from ((lo, hi) ∷ rs) (b ∷ s) = leb lo b && leb b hi && utf8_from rs s

unfoldable pub is_utf8 : Str → Bool
unfolding utf8_from following
is_utf8 s = utf8_from [] s

utf8_from-append :
    (rs : List (ℕ × ℕ)) (s t : Str)
    → utf8_from rs s ≡ true
    → utf8_from [] t ≡ true
    → utf8_from rs (s ++ t) ≡ true
unfolding utf8_from
utf8_from-append [] [] t h k = k
utf8_from-append (r ∷ rs) [] t h k = cc
utf8_from-append [] (b ∷ s) t h k = go (following b) refl (λ rs. utf8_from-append rs s t)
  where
    go :
        (o : Option (List (ℕ × ℕ)))
        → following b ≡ o
        → ((rs : List (ℕ × ℕ))
            → utf8_from rs s ≡ true
            → utf8_from [] t ≡ true
            → utf8_from rs (s ++ t) ≡ true)
        → utf8_from [] (b ∷ (s ++ t)) ≡ true
    go none e ih = ground (arith, e)
    go (some rs) e ih = ground (arith, e, ih rs)
utf8_from-append ((lo, hi) ∷ rs) (b ∷ s) t h k = ground (arith, utf8_from-append rs s t)

-- Texts joined are a text.
pub is_utf8-append : (s t : Str) → is_utf8 s ≡ true → is_utf8 t ≡ true → is_utf8 (s ++ t) ≡ true
unfolding is_utf8
is_utf8-append s t h k = utf8_from-append [] s t h k

is_utf8_euro : is_utf8 (0xe2 ∷ 0x82 ∷ 0xac ∷ []) ≡ true
unfolding is_utf8
is_utf8_euro = refl

-- A surrogate is no text.
is_utf8_surrogate : is_utf8 (0xed ∷ 0xa0 ∷ 0x80 ∷ []) ≡ false
unfolding is_utf8
is_utf8_surrogate = refl
