-- ===== src/Kernel/Vga/Page.antt =====
-- What kernel/planten_kernel/src/vga_buffer.rs promises of the screen: the lines of the text, wrapped at the
-- width of a row, the last one lowest.
use planten.Base.{ℕ, ◌-◌, ◌≤◌, ◌<◌, ◌≡◌, leb, ◌==◌, if◌then◌else◌, some}
use planten.Base.{List, [], ◌∷◌, ◌++◌, All, length, get_elem?, Str}
use planten.Kernel.Vga.{buffer_width, Writer, visible, blank_cell, char_cell}

-- The line that is being written, and those above it, the newest first.
pub record Page : Type 0 where
  pub line : Str
  pub older : List Str

abbrev pub lines : Page → List Str
lines p = p.line ∷ p.older

unfoldable pub end_line : Page → Page
end_line p = record { line = []; older = p.line ∷ p.older }

unfoldable pub append_byte : ℕ → Page → Page
append_byte byte p = record { line = p.line ++ (byte ∷ []); older = p.older }

unfoldable pub type_byte : ℕ → Page → Page
type_byte byte p =
    if byte == b'\n'
    then end_line p
    else append_byte byte (if leb buffer_width (length p.line) then end_line p else p)

unfoldable pub type_text : Str → Page → Page
type_text [] p = p
type_text (byte ∷ s) p = type_text s (type_byte (visible byte) p)

-- The text of several pieces.
abbrev pub concat : List Str → Str
concat [] = []
concat (piece ∷ pieces) = piece ++ concat pieces

abbrev pub empty_page : Page
empty_page = record { line = []; older = [] }

-- The screen shows the 25 lines at the end of the page, each from the left of its row; behind the end of
-- every line but the oldest, on the row of which something else may stand, the row is blank.
pub record Shows (w : Writer) (p : Page) : Type 0 where
  pub column : w.column_position ≡ length p.line
  pub fits : All (λ l. length l ≤ buffer_width) (lines p)
  pub shown :
      (i c byte : ℕ) (l : Str)
      → i ≤ 24
      → get_elem? (lines p) i ≡ some l
      → get_elem? l c ≡ some byte
      → w.buffer (24 - i) c ≡ char_cell byte w.color_code
  pub blanked :
      (i c : ℕ) (l : Str)
      → i ≤ 24
      → i < length p.older
      → get_elem? (lines p) i ≡ some l
      → length l ≤ c
      → c < buffer_width
      → w.buffer (24 - i) c ≡ blank_cell w.color_code
