-- ===== src/Tools/Address/Bounds.antt =====
-- The port that `parse_9p_addr` of userspace/planten_coreutils/src/bin/10_ns.rs returns.
use planten.Base.{◌<◌, ◌^◌, arith, Option, none, some, Option-cases, Bool-cases, inl, inr}
use planten.Base.{◌==◌, parse_uint, parse_uint-lt, List, [], ◌∷◌, Str}
use planten.Tools.Text.{trim, is_empty, contains_char, count_char, starts_with}
use planten.Tools.Address.{Parsed, host_port, refused, with_port, parse_parts}
use planten.Tools.Address.{parse_dialled, parse_remainder, parse_bracketed, parse_colon}
use planten.Tools.Address.{parse_9p_addr}

-- A port that is returned is one of 16 bits.
abbrev pub PortFits : Parsed → Type 0
PortFits (host_port host port) = port < 2 ^ 16
PortFits (refused e) = Unit

with_port-PortFits : (addr host port : Str) → PortFits (with_port addr host port)
unfolding with_port
with_port-PortFits addr host port = elim (Option-cases (parse_uint (2 ^ 16) port)) [
  | inl e ↦ rw (e, with_port) tt
  | inr (n, e) ↦ rw (e, with_port) (parse_uint-lt (2 ^ 16) port n (omega arith) e)
]

parse_parts-PortFits : (addr : Str) (parts : List Str) → PortFits (parse_parts addr parts)
unfolding parse_parts
parse_parts-PortFits addr [] = tt
parse_parts-PortFits addr (p ∷ []) = tt
parse_parts-PortFits addr (host ∷ port ∷ []) = with_port-PortFits addr host port
parse_parts-PortFits addr (p ∷ q ∷ r ∷ parts) = parse_parts-PortFits addr (q ∷ r ∷ parts)

parse_remainder-PortFits :
    (addr host remainder : Str) → PortFits (parse_remainder addr host remainder)
unfolding parse_remainder
parse_remainder-PortFits addr host [] = omega arith
parse_remainder-PortFits addr host (c ∷ []) = omega arith
parse_remainder-PortFits addr host (c ∷ d ∷ port) = elim (Bool-cases (c == b':')) [
  | inl e ↦ rw e (with_port-PortFits addr host (d ∷ port))
  | inr e ↦ rw e (omega arith)
]

parse_bracketed-PortFits :
    (addr : Str) (found : Option (Str × Str)) → PortFits (parse_bracketed addr found)
unfolding parse_bracketed
parse_bracketed-PortFits addr none = tt
parse_bracketed-PortFits addr (some (host, rest)) = parse_remainder-PortFits addr host rest

parse_colon-PortFits : (addr : Str) (found : Option (Str × Str)) → PortFits (parse_colon addr found)
unfolding parse_colon
parse_colon-PortFits addr none = omega arith
parse_colon-PortFits addr (some (host, port)) = with_port-PortFits addr host port

-- Whatever the text of an address is, the port is below 2 ^ 16, if there is one.
pub parse_9p_addr-PortFits : (addr : Str) → PortFits (parse_9p_addr addr)
unfolding parse_9p_addr parse_dialled
parse_9p_addr-PortFits addr = elim (Bool-cases (is_empty (trim addr))) [
  | inl e ↦ rw e tt
  | inr e ↦ elim (Bool-cases (contains_char b'!' addr)) [
    | inl f ↦ rw (e, f) (parse_parts-PortFits addr _)
    | inr f ↦ elim (Bool-cases (starts_with b'[' addr)) [
      | inl g ↦ rw (e, f, g) (parse_bracketed-PortFits addr _)
      | inr g ↦ elim (Bool-cases (count_char b':' addr == 1)) [
        | inl k ↦ rw (e, f, g, k) (parse_colon-PortFits addr _)
        | inr k ↦ rw (e, f, g, k) (omega arith)
      ]
    ]
  ]
]
