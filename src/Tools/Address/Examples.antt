-- ===== src/Tools/Address/Examples.antt =====
-- Addresses that `parse_9p_addr` of userspace/planten_coreutils/src/bin/10_ns.rs is given.
use planten.Base.{◌≡◌, refl, arith, bytes, parse_uint, parse_digits, add_digit}
use planten.Tools.Text.{trim, trim_start, trim_end, is_whitespace, contains_char, count_char, cut}
use planten.Tools.Address.{
  host_port, refused, invalid_port, empty_address, parse_9p_addr, parse_bracketed, parse_remainder,
  with_port,
}
use planten.Tools.Address.Forms.{numbered, IsPlain, print_address, parse_9p_addr-print_address}

blank_address : parse_9p_addr (bytes " \t") ≡ refused empty_address
unfolding parse_9p_addr trim trim_start trim_end is_whitespace
blank_address = refl

bare_ipv6 : parse_9p_addr (bytes "::1") ≡ host_port (bytes "::1") 564
unfolding parse_9p_addr trim trim_start trim_end is_whitespace contains_char count_char
bare_ipv6 = refl

large_port :
    parse_9p_addr (bytes "[::1]:65536")
    ≡ refused (invalid_port (bytes "65536") (bytes "[::1]:65536"))
unfolding parse_9p_addr trim trim_start trim_end is_whitespace contains_char cut parse_bracketed
    parse_remainder with_port parse_uint parse_digits add_digit
large_port = refl

host-IsPlain : IsPlain (numbered (bytes "fs") 5640)
host-IsPlain = (
  (λ e. omega arith, (λ e. omega arith, tt)),
  refl,
  (λ e. omega arith, (λ e. omega arith, tt)),
  omega arith,
)

parse_9p_addr-print_address_example :
    parse_9p_addr (print_address (numbered (bytes "fs") 5640)) ≡ host_port (bytes "fs") 5640
parse_9p_addr-print_address_example =
    parse_9p_addr-print_address (numbered (bytes "fs") 5640) host-IsPlain
