-- ===== src/Kernel/Vga/Scroll.antt =====
-- `new_line` and `write_byte` of kernel/planten_kernel/src/vga_buffer.rs, cell by cell.
use planten.Base.{ℕ, suc, ◌+◌, ◌<◌, ◌≡◌, ◌≢◌, refl, ◌∙◌, arith, ok}
use planten.Base.{inl, inr, ◌⊎◌}
use planten.Kernel.Vga.{ScreenChar, buffer_width, Writer, blank_cell, char_cell}
use planten.Kernel.Vga.{put_cell, clear_row, new_line, put_byte}
use planten.Kernel.Vga.Cells.{write_cell-ok, clear_cols-ok, copy_rows-ok}

-- Every row moves up by one, the last one is blank, and the line starts again.
pub record Scrolled (w w' : Writer) : Type 0 where
  pub start : w'.column_position ≡ 0
  pub color : w'.color_code ≡ w.color_code
  pub moved : (r c : ℕ) → r < 24 → c < buffer_width → w'.buffer r c ≡ w.buffer (suc r) c
  pub blanked : (c : ℕ) → c < buffer_width → w'.buffer 24 c ≡ blank_cell w.color_code

pub new_line-Scrolled : (w : Writer) → (w' : Writer) × (new_line w ≡ ok w') × Scrolled w w'
unfolding new_line clear_row
new_line-Scrolled w =
    let (copied, copies, cells) = copy_rows-ok 24 0 w.buffer (omega arith) in
    let (cleared, clears, rest) =
      clear_cols-ok 80 24 0 (blank_cell w.color_code) copied (omega arith) (omega arith) in
    (
      record { column_position = 0; color_code = w.color_code; buffer = cleared },
      rw (copies, clears) refl,
      record {
        start = refl;
        color = refl;
        moved = λ r c h k. rest r c ∙ ground (arith, cells r c k);
        blanked = λ c k. rest 24 c ∙ ground arith;
      },
    )

-- A byte stands at the column, and nothing else changes.
pub record Placed (byte : ℕ) (w w' : Writer) : Type 0 where
  pub next : w'.column_position ≡ suc w.column_position
  pub color : w'.color_code ≡ w.color_code
  pub here : w'.buffer 24 w.column_position ≡ char_cell byte w.color_code
  pub elsewhere : (r c : ℕ) → (r ≢ 24) ⊎ (c ≢ w.column_position) → w'.buffer r c ≡ w.buffer r c

pub put_byte-Placed :
    (byte : ℕ) (w : Writer)
    → w.column_position < buffer_width
    → (w' : Writer) × (put_byte byte w ≡ ok w') × Placed byte w w'
unfolding put_byte
put_byte-Placed byte w h =
    let cell : ScreenChar = char_cell byte w.color_code in
    (
      record w {
        buffer = put_cell 24 w.column_position cell w.buffer;
        column_position = w.column_position + 1;
      },
      rw (write_cell-ok 24 w.column_position cell w.buffer (omega arith) h) refl,
      record {
        next = omega arith;
        color = refl;
        here = ground arith;
        elsewhere = λ r c k. other r c k cell;
      },
    )
  where
    other :
        (r c : ℕ)
        → (r ≢ 24) ⊎ (c ≢ w.column_position)
        → (cell : ScreenChar) → put_cell 24 w.column_position cell w.buffer r c ≡ w.buffer r c
    other r c (inl k) cell = ground arith
    other r c (inr k) cell = ground arith
