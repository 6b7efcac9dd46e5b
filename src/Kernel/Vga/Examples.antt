-- ===== src/Kernel/Vga/Examples.antt =====
-- The writer of kernel/planten_kernel/src/vga_buffer.rs on an empty screen.
use planten.Base.{
  ℕ, zero, suc, ◌≡◌, refl, ◌≤◌, ◌-◌, ap, ◌∙◌, get_elem?, some, some-injective, arith, ok, List, [],
  ◌∷◌, Str, bytes,
}
use planten.Kernel.Vga.{Writer, Buffer, blank_cell, char_cell, initial_writer, write_fmt}
use planten.Kernel.Vga.Page.{Shows, type_text, empty_page, concat, type_byte, append_byte}
use planten.Kernel.Vga.Page.{end_line}
use planten.Kernel.Vga.Bounds.{Fits, write_fmt-Fits}
use planten.Kernel.Vga.Shown.{write_fmt-Shows}

abbrev dark : Buffer
dark row col = blank_cell 7

-- `_start` of kernel/planten_kernel/src/main.rs
abbrev greeting : List Str
greeting = bytes "Hello World" ∷ bytes "!" ∷ bytes "\n" ∷ []

initial_writer-Shows : Shows (initial_writer dark) empty_page
initial_writer-Shows = record {
  column = refl;
  fits = omega arith;
  shown = nothing_shown;
  blanked = λ i c l k lt. absurd (omega arith);
}
  where
    nothing_shown :
        (i c byte : ℕ) (l : Str)
        → i ≤ 24
        → get_elem? ([] ∷ []) i ≡ some l
        → get_elem? l c ≡ some byte
        → dark (24 - i) c ≡ char_cell byte 14
    nothing_shown zero c byte l k e f = cc (ap (λ t. get_elem? t c) (some-injective e) ∙ f)
    nothing_shown (suc i) c byte l k e f = cc

greeting_typed :
    type_text (concat greeting) empty_page ≡ record { line = []; older = bytes "Hello World!" ∷ [] }
unfolding type_text type_byte append_byte end_line
greeting_typed = refl

write_fmt-Shows_example :
    (w : Writer) × (write_fmt greeting (initial_writer dark) ≡ ok w)
    × Shows w (type_text (concat greeting) empty_page)
write_fmt-Shows_example =
    write_fmt-Shows greeting (initial_writer dark) empty_page initial_writer-Shows

write_fmt-Fits_example : Fits (initial_writer dark) (write_fmt greeting (initial_writer dark))
write_fmt-Fits_example = write_fmt-Fits greeting (initial_writer dark) (omega arith)
