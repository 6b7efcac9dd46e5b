-- ===== src/Tools/Address/Forms.antt =====
-- The forms of an address that `parse_9p_addr` of userspace/planten_coreutils/src/bin/10_ns.rs reads.
use planten.Base.{ℕ, ◌<◌, ◌^◌, ◌≡◌, ◌≢◌, refl, ◌∙◌, arith, false}
use planten.Base.{inl, inr, ◌==◌, [], ◌∷◌, ◌++◌}
use planten.Base.{Str}
use planten.Base.{to_decimal, to_decimal-ne-nil}
use planten.Tools.Text.{trim, contains_char, count_char, starts_with}
use planten.Tools.Text.{is_whitespace, Without, contains_char-Without, contains_char-append}
use planten.Tools.Text.{cut-append}
use planten.Tools.Address.{Parsed, host_port, default_port, parse_parts}
use planten.Tools.Address.{parse_dialled, parse_remainder, parse_bracketed, parse_colon}
use planten.Tools.Address.{parse_9p_addr}
use planten.Tools.Address.Parts.{
  port-Without, with_port-to_decimal, is_empty-ne, visible_here, no_char, starts_with-append,
  one_colon, remainder_at_digits, dialled-parts, all_non_empty, has_mark,
}

-- An address as it is meant: a host, a host with a port, the same in brackets, or a dial string.
pub data Address : Type 0 where
  named : Str → Address
  numbered : Str → ℕ → Address
  bracketed : Str → Address
  bracketed_numbered : Str → ℕ → Address
  dialled : Str → Str → ℕ → Address

abbrev pub print_address : Address → Str
print_address (named host) = host
print_address (numbered host port) = host ++ (b':' ∷ to_decimal port)
print_address (bracketed host) = b'[' ∷ (host ++ (b']' ∷ []))
print_address (bracketed_numbered host port) = b'[' ∷ (host ++ (b']' ∷ b':' ∷ to_decimal port))
print_address (dialled proto host port) = proto ++ (b'!' ∷ (host ++ (b'!' ∷ to_decimal port)))

abbrev pub meant : Address → Parsed
meant (named host) = host_port host default_port
meant (numbered host port) = host_port host port
meant (bracketed host) = host_port host default_port
meant (bracketed_numbered host port) = host_port host port
meant (dialled proto host port) = host_port host port

-- The characters that tell the forms apart do not stand in the parts. A host with several colons is one
-- without a port.
abbrev pub IsPlain : Address → Type 0
IsPlain (named host) =
    (trim host ≢ [])
    × Without b'!' host
    × (starts_with b'[' host ≡ false)
    × (count_char b':' host ≢ 1)
IsPlain (numbered host port) =
    Without b'!' host × (starts_with b'[' host ≡ false) × Without b':' host × (port < 2 ^ 16)
IsPlain (bracketed host) = Without b'!' host × Without b']' host
IsPlain (bracketed_numbered host port) = Without b'!' host × Without b']' host × (port < 2 ^ 16)
IsPlain (dialled proto host port) =
    Without b'!' proto × Without b'!' host × (proto ≢ []) × (host ≢ []) × (port < 2 ^ 16)

named-parsed :
    (host : Str) → IsPlain (named host) → parse_9p_addr host ≡ host_port host default_port
unfolding parse_9p_addr
named-parsed host (visible, dial, bracket, colons) =
    rw
      (
        is_empty-ne (trim host) visible,
        contains_char-Without b'!' host dial,
        bracket,
        ne→== (count_char b':' host) 1 colons,
      )
      refl
  where
    ne→== : (a b : ℕ) → a ≢ b → (a == b) ≡ false
    ne→== a b h = ground arith

numbered-parsed :
    (host : Str) (port : ℕ)
    → IsPlain (numbered host port)
    → parse_9p_addr (host ++ (b':' ∷ to_decimal port)) ≡ host_port host port
unfolding parse_9p_addr parse_colon is_whitespace
numbered-parsed host port (dial, bracket, colon, small) =
    rw
      (
        visible_here host (to_decimal port) b':' refl,
        no_char b'!' b':' host (to_decimal port) dial refl
            (port-Without b'!' port (inl (omega arith))),
        starts_with-append b'[' b':' host (to_decimal port) bracket refl,
        one_colon host (to_decimal port) colon (port-Without b':' port (inr (omega arith))),
        cut-append b':' host (to_decimal port) colon,
        parse_colon,
      )
      (with_port-to_decimal _ host port small)

bracketed_with :
    (host rest : Str)
    → Without b'!' host
    → Without b']' host
    → contains_char b'!' rest ≡ false
    → parse_9p_addr (b'[' ∷ (host ++ (b']' ∷ rest)))
      ≡ parse_remainder (b'[' ∷ (host ++ (b']' ∷ rest))) host rest
unfolding parse_9p_addr parse_bracketed is_whitespace contains_char
bracketed_with host rest dial bracket plain =
    rw
      (
        visible_here [] (host ++ (b']' ∷ rest)) b'[' refl,
        contains_char-append b'!' host (b']' ∷ rest),
        contains_char-Without b'!' host dial,
        plain,
        cut-append b']' host rest bracket,
        parse_bracketed,
      )
      refl

bracketed_numbered-parsed :
    (host : Str) (port : ℕ)
    → IsPlain (bracketed_numbered host port)
    → parse_9p_addr (b'[' ∷ (host ++ (b']' ∷ b':' ∷ to_decimal port))) ≡ host_port host port
bracketed_numbered-parsed host port (dial, bracket, small) =
    bracketed_with host (b':' ∷ to_decimal port) dial bracket
      (no_char b'!' b':' [] (to_decimal port) tt refl (port-Without b'!' port (inl (omega arith))))
    ∙ remainder_at_digits _ host (to_decimal port) (to_decimal-ne-nil port)
    ∙ with_port-to_decimal _ host port small

bracketed-parsed :
    (host : Str)
    → IsPlain (bracketed host)
    → parse_9p_addr (b'[' ∷ (host ++ (b']' ∷ []))) ≡ host_port host default_port
unfolding parse_remainder contains_char
bracketed-parsed host (dial, bracket) = bracketed_with host [] dial bracket refl

dialled-parsed :
    (proto host : Str) (port : ℕ)
    → IsPlain (dialled proto host port)
    → parse_9p_addr (proto ++ (b'!' ∷ (host ++ (b'!' ∷ to_decimal port)))) ≡ host_port host port
unfolding parse_9p_addr parse_dialled parse_parts is_whitespace
dialled-parsed proto host port (in_proto, in_host, some_proto, some_host, small) =
    rw
      (
        visible_here proto (host ++ (b'!' ∷ to_decimal port)) b'!' refl,
        has_mark proto (host ++ (b'!' ∷ to_decimal port)),
        dialled-parts proto host (to_decimal port) in_proto in_host
            (port-Without b'!' port (inl (omega arith))),
        all_non_empty proto host (to_decimal port) some_proto some_host (to_decimal-ne-nil port),
      )
      (with_port-to_decimal _ host port small)

-- Each form of an address, with parts in which the characters of the other forms do not stand, is read as the
-- host and the port that it means, of which the port is 564 where the form has none.
pub parse_9p_addr-print_address :
    (a : Address) → IsPlain a → parse_9p_addr (print_address a) ≡ meant a
parse_9p_addr-print_address (named host) h = named-parsed host h
parse_9p_addr-print_address (numbered host port) h = numbered-parsed host port h
parse_9p_addr-print_address (bracketed host) h = bracketed-parsed host h
parse_9p_addr-print_address (bracketed_numbered host port) h = bracketed_numbered-parsed host port h
parse_9p_addr-print_address (dialled proto host port) h = dialled-parsed proto host port h
