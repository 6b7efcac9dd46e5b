-- ===== src/Kernel/Vga/Shown.antt =====
-- `write_string` of kernel/planten_kernel/src/vga_buffer.rs against the page of its text.
use planten.Base.{ℕ, ◌<◌, ◌≡◌, refl, ap, ◌∙◌, arith, ok}
use planten.Base.{leb, ◌==◌, if◌then◌else◌, Bool-cases, inl, inr}
use planten.Base.{List, [], ◌∷◌, ◌++◌, length, Str}
use planten.Kernel.Vga.{buffer_width, Writer, visible, wrap_line}
use planten.Kernel.Vga.{write_byte, write_string, write_fmt}
use planten.Kernel.Vga.Scroll.{new_line-Scrolled, put_byte-Placed}
use planten.Kernel.Vga.Page.{Page, end_line, type_byte, type_text, Shows, concat}
use planten.Kernel.Vga.Lines.{end_line-Shows, append_byte-Shows}

ended_room : (p : Page) → length (end_line p).line < buffer_width
unfolding end_line
ended_room p = omega arith

wrap_line-Shows :
    (w : Writer) (p : Page)
    → Shows w p
    → (w' : Writer) × (wrap_line w ≡ ok w')
      × (let q = if leb buffer_width (length p.line) then end_line p else p in
          Shows w' q × (length q.line < buffer_width))
unfolding wrap_line
wrap_line-Shows w p h = elim (Bool-cases (leb buffer_width (length p.line))) [
  | inl full ↦
      let (w', runs, s) = new_line-Scrolled w in
      (
        w',
        rw (ap (leb buffer_width) h.column ∙ full) runs,
        rw full (end_line-Shows w w' p s h, ended_room p),
      )
  | inr room ↦ (w, rw (ap (leb buffer_width) h.column ∙ room) refl, rw room (h, ground arith))
]

write_byte-Shows :
    (byte : ℕ) (w : Writer) (p : Page)
    → Shows w p
    → (w' : Writer) × (write_byte byte w ≡ ok w') × Shows w' (type_byte byte p)
unfolding write_byte type_byte
write_byte-Shows byte w p h = elim (Bool-cases (byte == b'\n')) [
  | inl newline ↦
      let (w', runs, s) = new_line-Scrolled w in rw newline (w', runs, end_line-Shows w w' p s h)
  | inr other ↦
      let (v, wraps, (wrapped, room)) = wrap_line-Shows w p h in
      let (w', puts, placed) = put_byte-Placed byte v (omega (arith, wrapped.column)) in
      (
        w',
        rw (other, wraps) puts,
        rw other (
            append_byte-Shows byte v w' (if leb buffer_width (length p.line) then end_line p else p)
              room placed wrapped),
      )
]

write_string-Shows :
    (s : Str) (w : Writer) (p : Page)
    → Shows w p
    → (w' : Writer) × (write_string s w ≡ ok w') × Shows w' (type_text s p)
unfolding write_string type_text
write_string-Shows [] w p h = (w, refl, h)
write_string-Shows (byte ∷ s) w p h =
    let (v, writes, shown) = write_byte-Shows (visible byte) w p h in
    let (w', more, last) = write_string-Shows s v (type_byte (visible byte) p) shown in
    (w', rw writes more, last)

type_text-append : (s t : Str) (p : Page) → type_text (s ++ t) p ≡ type_text t (type_text s p)
unfolding type_text
type_text-append [] t p = refl
type_text-append (byte ∷ s) t p = type_text-append s t (type_byte (visible byte) p)

type_nothing : {w : Writer} (p : Page) → Shows w p → Shows w (type_text [] p)
unfolding type_text
type_nothing p h = h

-- Text that is printed in pieces on a screen that shows a page: nothing panics, and the screen then shows the
-- page with all the text typed behind it.
pub write_fmt-Shows :
    (pieces : List Str) (w : Writer) (p : Page)
    → Shows w p
    → (w' : Writer) × (write_fmt pieces w ≡ ok w') × Shows w' (type_text (concat pieces) p)
unfolding write_fmt
write_fmt-Shows [] w p h = (w, refl, type_nothing p h)
write_fmt-Shows (piece ∷ pieces) w p h =
    let (v, writes, shown) = write_string-Shows piece w p h in
    let (w', more, last) = write_fmt-Shows pieces v (type_text piece p) shown in
    (w', rw writes more, rw (type_text-append piece (concat pieces) p) last)
