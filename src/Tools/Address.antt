-- ===== src/Tools/Address.antt =====
-- `parse_9p_addr` of userspace/planten_coreutils/src/bin/10_ns.rs.
use planten.Base.{
  ℕ, ◌^◌, ◌≡◌, Bool, true, false, Option, none, some, if◌then◌else◌, ◌==◌, parse_uint,
}
use planten.Base.{List, [], ◌∷◌, Str, bytes}
use planten.Fs.FilePath.{non_empty}
use planten.Tools.Text.{trim, is_empty, split_by, contains_char, count_char, cut, starts_with}
pub mod Bounds
pub mod Parts
pub mod Forms
mod Examples

-- The texts of the errors, by what they are about.
pub data AddrError : Type 0 where
  empty_address : AddrError
  invalid_address : Str → AddrError
  invalid_ipv6 : Str → AddrError
  invalid_port : Str → Str → AddrError

pub data Parsed : Type 0 where
  host_port : Str → ℕ → Parsed
  refused : AddrError → Parsed

abbrev pub default_port : ℕ
default_port = 564

-- `port.parse::<u16>()`, in an answer with the host.
unfoldable pub with_port : Str → Str → Str → Parsed
with_port addr host port = elim (parse_uint (2 ^ 16) port) [
  | none ↦ refused (invalid_port port addr)
  | some n ↦ host_port host n
]

-- The last of the parts is the port, the one before it the host.
unfoldable pub parse_parts : Str → List Str → Parsed
parse_parts addr [] = refused (invalid_address addr)
parse_parts addr (p ∷ []) = refused (invalid_address addr)
parse_parts addr (host ∷ port ∷ []) = with_port addr host port
parse_parts addr (p ∷ q ∷ r ∷ parts) = parse_parts addr (q ∷ r ∷ parts)

unfoldable pub parse_dialled : Str → Parsed
parse_dialled addr = parse_parts addr (non_empty (split_by (λ c. c == b'!') addr))

-- What follows the `]`: a port behind a colon, or nothing that is read.
unfoldable pub parse_remainder : Str → Str → Str → Parsed
parse_remainder addr host [] = host_port host default_port
parse_remainder addr host (c ∷ []) = host_port host default_port
parse_remainder addr host (c ∷ d ∷ port) =
    if c == b':' then with_port addr host (d ∷ port) else host_port host default_port

unfoldable pub parse_bracketed : Str → Option (Str × Str) → Parsed
parse_bracketed addr none = refused (invalid_ipv6 addr)
parse_bracketed addr (some (host, remainder)) = parse_remainder addr host remainder

-- The one colon of the text is its last one.
unfoldable pub parse_colon : Str → Option (Str × Str) → Parsed
parse_colon addr none = host_port addr default_port
parse_colon addr (some (host, port)) = with_port addr host port

abbrev tail_of : Str → Str
tail_of [] = []
tail_of (c ∷ s) = s

unfoldable pub parse_9p_addr : Str → Parsed
parse_9p_addr addr =
    if is_empty (trim addr)
    then refused empty_address
    else if contains_char b'!' addr
    then parse_dialled addr
    else if starts_with b'[' addr
    then parse_bracketed addr (cut b']' (tail_of addr))
    else if count_char b':' addr == 1
    then parse_colon addr (cut b':' addr)
    else host_port addr default_port
