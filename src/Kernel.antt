-- ===== src/Kernel.antt =====
-- The kernel of kernel/planten_kernel/src: its text buffer, and what it prints at its start.
use planten.Base.{ℕ, Res, ◌>>=◌, List, [], ◌∷◌, ◌++◌, Str, bytes}
use planten.Kernel.Vga.{Writer, Buffer, initial_writer, write_fmt}
pub mod Vga

-- `println!("Hello World{}", "!")`
unfoldable pub start : Buffer → Res Writer
start screen = write_fmt (bytes "Hello World" ∷ bytes "!" ∷ bytes "\n" ∷ []) (initial_writer screen)
