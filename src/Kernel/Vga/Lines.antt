-- ===== src/Kernel/Vga/Lines.antt =====
-- `new_line` and the byte that `write_byte` puts, of kernel/planten_kernel/src/vga_buffer.rs, on the screen of
-- a page.
use planten.Base.{ℕ, zero, suc, ◌-◌, ◌≤◌, ◌<◌, ◌≡◌, refl, sym, ap, ◌∙◌, ◌⊎◌, arith}
use planten.Base.{inl, inr, some, some-injective}
use planten.Base.{List, [], ◌∷◌, ◌++◌, All, length, length-append, get_elem?, Str}
use planten.Kernel.Vga.{buffer_width, Writer, blank_cell, char_cell}
use planten.Kernel.Vga.Scroll.{Scrolled, Placed}
use planten.Kernel.Vga.Page.{Page, lines, end_line, append_byte, Shows}

All-get_elem? {ℓ κ} :
    {A : Type ℓ} (P : A → Type κ) (xs : List A) (i : ℕ) (x : A)
    → All P xs
    → get_elem? xs i ≡ some x
    → P x
All-get_elem? P [] i x h e = cc
All-get_elem? P (y ∷ ys) zero x h e = rw (← some-injective e) h.0
All-get_elem? P (y ∷ ys) (suc i) x h e = All-get_elem? P ys i x h.1 e

get_elem?-lt {ℓ} :
    {A : Type ℓ} (xs : List A) (i : ℕ) (x : A) → get_elem? xs i ≡ some x → i < length xs
get_elem?-lt [] i x e = cc
get_elem?-lt (y ∷ ys) zero x e = omega arith
get_elem?-lt (y ∷ ys) (suc i) x e = omega (arith, get_elem?-lt ys i x e)

row_above : (j : ℕ) → suc j ≤ 24 → suc (24 - suc j) ≡ 24 - j
row_above j h = omega arith

-- The end of a line.
pub end_line-Shows : (w w' : Writer) (p : Page) → Scrolled w w' → Shows w p → Shows w' (end_line p)
unfolding end_line
end_line-Shows w w' p s h = record {
  column = s.start;
  fits = (omega arith, h.fits);
  shown = ended;
  blanked = blank_behind;
}
  where
    from_below :
        (j c : ℕ) → suc j ≤ 24 → c < buffer_width → w'.buffer (24 - suc j) c ≡ w.buffer (24 - j) c
    from_below j c k room =
        s.moved (24 - suc j) c (omega arith) room ∙ ap (λ r. w.buffer r c) (row_above j k)

    ended :
        (i c byte : ℕ) (l : Str)
        → i ≤ 24
        → get_elem? ([] ∷ lines p) i ≡ some l
        → get_elem? l c ≡ some byte
        → w'.buffer (24 - i) c ≡ char_cell byte w'.color_code
    ended zero c byte l k e f = cc
    ended (suc j) c byte l k e f =
        from_below j c k (
          omega (
            arith,
            get_elem?-lt l c byte f,
            All-get_elem? (λ t. length t ≤ buffer_width) (lines p) j l h.fits e,
          ))
        ∙ h.shown j c byte l (omega arith) e f
        ∙ ap (char_cell byte) (sym s.color)

    blank_behind :
        (i c : ℕ) (l : Str)
        → i ≤ 24
        → i < suc (length p.older)
        → get_elem? ([] ∷ lines p) i ≡ some l
        → length l ≤ c
        → c < buffer_width
        → w'.buffer (24 - i) c ≡ blank_cell w'.color_code
    blank_behind zero c l k lt e f room = s.blanked c room ∙ ap blank_cell (sym s.color)
    blank_behind (suc j) c l k lt e f room =
        from_below j c k room
        ∙ h.blanked j c l (omega arith) (omega arith) e f room
        ∙ ap blank_cell (sym s.color)

length-append_one : (s : Str) (byte : ℕ) → length (s ++ (byte ∷ [])) ≡ suc (length s)
length-append_one s byte = omega (arith, length-append s (byte ∷ []))

get_elem?-append_one :
    (s : Str) (byte c b : ℕ)
    → get_elem? (s ++ (byte ∷ [])) c ≡ some b
    → (get_elem? s c ≡ some b) ⊎ ((c ≡ length s) × (b ≡ byte))
get_elem?-append_one [] byte zero b e = inr (refl, ground arith)
get_elem?-append_one [] byte (suc c) b e = cc
get_elem?-append_one (x ∷ s) byte zero b e = inl e
get_elem?-append_one (x ∷ s) byte (suc c) b e = elim (get_elem?-append_one s byte c b e) [
  | inl old ↦ inl old
  | inr (at_end, same) ↦ inr (omega (arith, at_end), same)
]

-- A byte behind a line that has room for it.
pub append_byte-Shows :
    (byte : ℕ) (w w' : Writer) (p : Page)
    → length p.line < buffer_width
    → Placed byte w w'
    → Shows w p
    → Shows w' (append_byte byte p)
unfolding append_byte
append_byte-Shows byte w w' p room s h = record {
  column = s.next ∙ ap suc h.column ∙ sym (length-append_one p.line byte);
  fits = (omega (arith, length-append_one p.line byte), h.fits.1);
  shown = placed;
  blanked = blank_behind;
}
  where
    recolored : (b : ℕ) → char_cell b w.color_code ≡ char_cell b w'.color_code
    recolored b = ap (char_cell b) (sym s.color)

    placed :
        (i c b : ℕ) (l : Str)
        → i ≤ 24
        → get_elem? ((p.line ++ (byte ∷ [])) ∷ p.older) i ≡ some l
        → get_elem? l c ≡ some b
        → w'.buffer (24 - i) c ≡ char_cell b w'.color_code
    placed zero c b l k e f =
        elim (get_elem?-append_one p.line byte c b
          (ap (λ t. get_elem? t c) (some-injective e) ∙ f)) [
            | inl old ↦
                s.elsewhere 24 c
                  (inr (λ q. omega (arith, q, h.column, get_elem?-lt p.line c b old)))
                ∙ h.shown 0 c b p.line k refl old
                ∙ recolored b
            | inr (at_end, same) ↦
                ap (w'.buffer 24) (at_end ∙ sym h.column)
                ∙ s.here
                ∙ ap (λ x. char_cell x w.color_code) (sym same)
                ∙ recolored b
          ]
    placed (suc j) c b l k e f =
        s.elsewhere (24 - suc j) c (inl (omega arith)) ∙ h.shown (suc j) c b l k e f ∙ recolored b

    blank_behind :
        (i c : ℕ) (l : Str)
        → i ≤ 24
        → i < length p.older
        → get_elem? ((p.line ++ (byte ∷ [])) ∷ p.older) i ≡ some l
        → length l ≤ c
        → c < buffer_width
        → w'.buffer (24 - i) c ≡ blank_cell w'.color_code
    blank_behind zero c l k lt e f wide =
        let longer : suc (length p.line) ≤ c =
          omega (arith, length-append_one p.line byte, ap length (some-injective e)) in
        s.elsewhere 24 c (inr (λ q. omega (arith, q, h.column)))
        ∙ h.blanked 0 c p.line k lt refl (omega arith) wide
        ∙ ap blank_cell (sym s.color)
    blank_behind (suc j) c l k lt e f wide =
        s.elsewhere (24 - suc j) c (inl (omega arith))
        ∙ h.blanked (suc j) c l k lt e f wide
        ∙ ap blank_cell (sym s.color)
