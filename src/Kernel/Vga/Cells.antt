-- ===== src/Kernel/Vga/Cells.antt =====
-- The loops over the cells of a row in kernel/planten_kernel/src/vga_buffer.rs.
use planten.Base.{ℕ, zero, suc, ◌+◌, ◌-◌, ◌≤◌, ◌<◌, ◌≡◌, refl, ◌∙◌, arith, ok, ◌&&◌, ◌==◌}
use planten.Base.{ltb, leb, if◌then◌else◌, lt→ltb}
use planten.Kernel.Vga.{ScreenChar, Buffer, buffer_height, buffer_width, read_cell, write_cell}
use planten.Kernel.Vga.{put_cell, copy_cols, copy_rows, clear_cols}

read_cell-ok :
    (row col : ℕ) (chars : Buffer)
    → row < buffer_height
    → col < buffer_width
    → read_cell row col chars ≡ ok (chars row col)
unfolding read_cell
read_cell-ok row col chars h k = rw (lt→ltb row buffer_height h, lt→ltb col buffer_width k) refl

pub write_cell-ok :
    (row col : ℕ) (cell : ScreenChar) (chars : Buffer)
    → row < buffer_height
    → col < buffer_width
    → write_cell row col cell chars ≡ ok (put_cell row col cell chars)
unfolding write_cell
write_cell-ok row col cell chars h k =
    rw (lt→ltb row buffer_height h, lt→ltb col buffer_width k) refl

suc-sub_one : (n : ℕ) → suc n - 1 ≡ n
suc-sub_one n = omega arith

suc-add_one : (n : ℕ) → suc n + 1 ≡ suc (suc n)
suc-add_one n = omega arith

-- A round of the loops copies the rest of the row upwards, and blanks the rest of a row.
copy_cols-ok :
    (n row col : ℕ) (chars : Buffer)
    → row < 24
    → col + n ≤ buffer_width
    → (copied : Buffer) × (copy_cols n (suc row) col chars ≡ ok copied)
      × ((r c : ℕ)
          → copied r c ≡ (
              if (r == row) && (leb col c && ltb c (col + n))
              then chars (suc row) c
              else chars r c))
unfolding copy_cols
copy_cols-ok zero row col chars h k = (chars, refl, λ r c. ground arith)
copy_cols-ok (suc n) row col chars h k =
    let (copied, runs, cells) =
      copy_cols-ok n row (col + 1) (put_cell row col (chars (suc row) col) chars) h (omega arith) in
    (
      copied,
      rw
          (
            read_cell-ok (suc row) col chars (omega arith) (omega arith),
            suc-sub_one row,
            write_cell-ok row col (chars (suc row) col) chars (omega arith) (omega arith),
          )
          runs,
      λ r c. cells r c ∙ ground arith,
    )

pub clear_cols-ok :
    (n row col : ℕ) (blank : ScreenChar) (chars : Buffer)
    → row < buffer_height
    → col + n ≤ buffer_width
    → (cleared : Buffer) × (clear_cols n row col blank chars ≡ ok cleared)
      × ((r c : ℕ)
          → cleared r c
            ≡ (if (r == row) && (leb col c && ltb c (col + n)) then blank else chars r c))
unfolding clear_cols
clear_cols-ok zero row col blank chars h k = (chars, refl, λ r c. ground arith)
clear_cols-ok (suc n) row col blank chars h k =
    let (cleared, runs, cells) =
      clear_cols-ok n row (col + 1) blank (put_cell row col blank chars) h (omega arith) in
    (
      cleared,
      rw (write_cell-ok row col blank chars h (omega arith)) runs,
      λ r c. cells r c ∙ ground arith,
    )

-- The cells inside the screen after the rows from the one below `row` on are copied up by one.
pub copy_rows-ok :
    (n row : ℕ) (chars : Buffer)
    → row + n ≤ 24
    → (copied : Buffer) × (copy_rows n (suc row) chars ≡ ok copied)
      × ((r c : ℕ)
          → c < buffer_width
          → copied r c ≡ (if leb row r && ltb r (row + n) then chars (suc r) c else chars r c))
unfolding copy_rows
copy_rows-ok zero row chars h = (chars, refl, λ r c k. ground arith)
copy_rows-ok (suc n) row chars h =
    let (first, runs, cells) = copy_cols-ok buffer_width row 0 chars (omega arith) (omega arith) in
    let (copied, more, rest) = copy_rows-ok n (suc row) first (omega arith) in
    (
      copied,
      rw (runs, suc-add_one row) more,
      λ r c k. rest r c k ∙ ground (arith, cells (suc r) c, cells r c),
    )
