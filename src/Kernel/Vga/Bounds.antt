-- ===== src/Kernel/Vga/Bounds.antt =====
-- The column of kernel/planten_kernel/src/vga_buffer.rs, and the absence of panics.
use planten.Base.{ℕ, ◌≤◌, ◌<◌, ◌≡◌, refl, ◌∙◌, arith, Res, ok, leb, ◌==◌}
use planten.Base.{Bool-cases, inl, inr, List, [], ◌∷◌, Str}
use planten.Kernel.Vga.{buffer_width, Writer, new_line, wrap_line, write_byte}
use planten.Kernel.Vga.{write_string, write_fmt, visible}
use planten.Kernel.Vga.Scroll.{new_line-Scrolled, put_byte-Placed}

-- The writer comes back, with a column inside the row or just behind it and its color.
abbrev pub Fits : Writer → Res Writer → Type 0
Fits w r =
    (w' : Writer) × (r ≡ ok w')
    × (w'.column_position ≤ buffer_width)
    × (w'.color_code ≡ w.color_code)

new_line-Fits : (w : Writer) → Fits w (new_line w)
new_line-Fits w =
    let (w', runs, s) = new_line-Scrolled w in (w', runs, omega (arith, s.start), s.color)

wrap_line-room :
    (w : Writer)
    → (w' : Writer) × (wrap_line w ≡ ok w')
      × (w'.column_position < buffer_width)
      × (w'.color_code ≡ w.color_code)
unfolding wrap_line
wrap_line-room w = elim (Bool-cases (leb buffer_width w.column_position)) [
  | inl full ↦
      let (w', runs, s) = new_line-Scrolled w in (w', rw full runs, omega (arith, s.start), s.color)
  | inr room ↦ (w, rw room refl, ground arith, refl)
]

write_byte-Fits : (byte : ℕ) (w : Writer) → Fits w (write_byte byte w)
unfolding write_byte
write_byte-Fits byte w = elim (Bool-cases (byte == b'\n')) [
  | inl newline ↦ rw newline (new_line-Fits w)
  | inr other ↦
      let (v, wraps, room, same) = wrap_line-room w in
      let (w', puts, p) = put_byte-Placed byte v room in
      (w', rw (other, wraps) puts, omega (arith, p.next), p.color ∙ same)
]

write_string-Fits :
    (s : Str) (w : Writer) → w.column_position ≤ buffer_width → Fits w (write_string s w)
unfolding write_string
write_string-Fits [] w h = (w, refl, h, refl)
write_string-Fits (byte ∷ s) w h =
    let (v, writes, bounded, same) = write_byte-Fits (visible byte) w in
    let (w', more, last, kept) = write_string-Fits s v bounded in
    (w', rw writes more, last, kept ∙ same)

-- Whatever text is printed, in whatever pieces: no index is out of bounds, the column is at most the width
-- afterwards, and the color stays.
pub write_fmt-Fits :
    (pieces : List Str) (w : Writer)
    → w.column_position ≤ buffer_width
    → Fits w (write_fmt pieces w)
unfolding write_fmt
write_fmt-Fits [] w h = (w, refl, h, refl)
write_fmt-Fits (piece ∷ pieces) w h =
    let (v, writes, bounded, same) = write_string-Fits piece w h in
    let (w', more, last, kept) = write_fmt-Fits pieces v bounded in
    (w', rw writes more, last, kept ∙ same)
