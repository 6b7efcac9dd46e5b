-- ===== src/Kernel/Vga.antt =====
-- `Writer` of kernel/planten_kernel/src/vga_buffer.rs: a column in the last row of a screen of 25 rows of 80
-- cells, which scrolls up by a row where a line ends.
use planten.Base.{ℕ, zero, suc, ◌+◌, ◌-◌, ◌*◌, Bool, ◌&&◌, ◌||◌, ltb, leb, ◌==◌, if◌then◌else◌}
use planten.Base.{Res, ok, panic, ◌>>=◌, List, [], ◌∷◌, ◌++◌, Str}
pub mod Cells
pub mod Scroll
pub mod Bounds
pub mod Page
pub mod Lines
pub mod Shown
mod Examples

pub data Color : Type 0 where
  black blue green cyan red magenta brown light_gray : Color
  dark_gray light_blue light_green light_cyan light_red pink yellow white : Color

abbrev pub color_number : Color → ℕ
color_number black = 0
color_number blue = 1
color_number green = 2
color_number cyan = 3
color_number red = 4
color_number magenta = 5
color_number brown = 6
color_number light_gray = 7
color_number dark_gray = 8
color_number light_blue = 9
color_number light_green = 10
color_number light_cyan = 11
color_number light_red = 12
color_number pink = 13
color_number yellow = 14
color_number white = 15

-- `(background as u8) << 4 | (foreground as u8)`, where the two numbers have no bit in common.
abbrev pub color_code : Color → Color → ℕ
color_code foreground background = color_number background * 16 + color_number foreground

pub record ScreenChar : Type 0 where
  pub ascii_character : ℕ
  pub color_code : ℕ

-- `ScreenChar { ascii_character: byte, color_code }`
abbrev pub char_cell : ℕ → ℕ → ScreenChar
char_cell byte color = record { ascii_character = byte; color_code = color }

abbrev pub buffer_height : ℕ
buffer_height = 25

abbrev pub buffer_width : ℕ
buffer_width = 80

-- The cells by row and column, of which those inside the bounds exist.
abbrev pub Buffer : Type 0
Buffer = ℕ → ℕ → ScreenChar

abbrev pub in_bounds : ℕ → ℕ → Bool
in_bounds row col = ltb row buffer_height && ltb col buffer_width

-- `chars[row][col].read()` and `.write(…)`; an index out of bounds panics.
unfoldable pub read_cell : ℕ → ℕ → Buffer → Res ScreenChar
read_cell row col chars = if in_bounds row col then ok (chars row col) else panic

abbrev pub put_cell : ℕ → ℕ → ScreenChar → Buffer → Buffer
put_cell row col cell chars r c = if (r == row) && (c == col) then cell else chars r c

unfoldable pub write_cell : ℕ → ℕ → ScreenChar → Buffer → Res Buffer
write_cell row col cell chars =
    if in_bounds row col then ok (put_cell row col cell chars) else panic

pub record Writer : Type 0 where
  pub column_position : ℕ
  pub color_code : ℕ
  pub buffer : Buffer

-- The loops over `col` and over `row`, by the rounds that are left.
unfoldable pub copy_cols : ℕ → ℕ → ℕ → Buffer → Res Buffer
copy_cols zero row col chars = ok chars
copy_cols (suc n) row col chars = do
  character ← read_cell row col chars
  chars ← write_cell (row - 1) col character chars
  copy_cols n row (col + 1) chars

unfoldable pub copy_rows : ℕ → ℕ → Buffer → Res Buffer
copy_rows zero row chars = ok chars
copy_rows (suc n) row chars = do
  chars ← copy_cols buffer_width row 0 chars
  copy_rows n (row + 1) chars

unfoldable pub clear_cols : ℕ → ℕ → ℕ → ScreenChar → Buffer → Res Buffer
clear_cols zero row col blank chars = ok chars
clear_cols (suc n) row col blank chars = do
  chars ← write_cell row col blank chars
  clear_cols n row (col + 1) blank chars

abbrev pub blank_cell : ℕ → ScreenChar
blank_cell color = char_cell b' ' color

unfoldable pub clear_row : ℕ → Writer → Res Writer
clear_row row w = do
  chars ← clear_cols buffer_width row 0 (blank_cell w.color_code) w.buffer
  ok (record w { buffer = chars })

unfoldable pub new_line : Writer → Res Writer
new_line w = do
  chars ← copy_rows (buffer_height - 1) 1 w.buffer
  w ← clear_row (buffer_height - 1) (record w { buffer = chars })
  ok (record w { column_position = 0 })

-- What follows the wrap of a full line in `write_byte`.
unfoldable pub put_byte : ℕ → Writer → Res Writer
put_byte byte w = do
  chars ← write_cell (buffer_height - 1) w.column_position (char_cell byte w.color_code) w.buffer
  ok (record w { buffer = chars; column_position = w.column_position + 1 })

unfoldable pub wrap_line : Writer → Res Writer
wrap_line w = if leb buffer_width w.column_position then new_line w else ok w

unfoldable pub write_byte : ℕ → Writer → Res Writer
write_byte byte w = if byte == b'\n' then new_line w else (do w ← wrap_line w; put_byte byte w)

-- The byte that `write_string` writes for a byte of the text.
abbrev pub visible : ℕ → ℕ
visible byte = if leb 0x20 byte && leb byte 0x7e || byte == b'\n' then byte else 0xfe

unfoldable pub write_string : Str → Writer → Res Writer
write_string [] w = ok w
write_string (byte ∷ s) w = do w ← write_byte (visible byte) w; write_string s w

-- `_print`: the pieces of formatted text one after another, by `write_str`, which never fails.
unfoldable pub write_fmt : List Str → Writer → Res Writer
write_fmt [] w = ok w
write_fmt (piece ∷ pieces) w = do w ← write_string piece w; write_fmt pieces w

-- `WRITER`, over what the screen shows before.
abbrev pub initial_writer : Buffer → Writer
initial_writer screen = record {
  column_position = 0;
  color_code = color_code yellow black;
  buffer = screen;
}
