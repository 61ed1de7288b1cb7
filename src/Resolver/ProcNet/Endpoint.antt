-- ===== src/Resolver/ProcNet/Endpoint.antt =====
-- The two ways to enumerate sockets agree on addresses.
use mathlib.Core.Option.{bind}
use netmon.Base.{ℕ, ◌/◌, ◌%◌, ◌^◌, ◌<◌, ◌≡◌, refl, true, [], ◌∷◌, ◌++◌, arith}
use netmon.Base.Text.{split_on_absent, split_on-append}
use netmon.Base.Hex.{
  hex, from_str_radix-hex8, from_str_radix-hex4, hex_char-ne-colon, hex-ne, length-hex,
}
use netmon.Resolver.Netlink.{socket_addr_from_diag, u16_from_be, u32_from_be}
use netmon.Resolver.ProcNet.{parse_proc_socket_addr, ip_from_hex}

-- A word swapped to network order, byte by byte from the top.
big_bytes :
    (raw : ℕ)
    → raw < 2 ^ 32
    → (u32_from_be raw / 16777216 % 256 ≡ raw % 256)
      × (u32_from_be raw / 65536 % 256 ≡ raw / 256 % 256)
      × (u32_from_be raw / 256 % 256 ≡ raw / 65536 % 256)
      × (u32_from_be raw % 256 ≡ raw / 16777216 % 256)
unfolding u32_from_be
big_bytes raw h = (omega arith, omega arith, omega arith, omega arith)

-- An IPv4 end that the kernel prints in `/proc/net` (the word of the address as eight hexadecimal
-- digits, the port as four, after a colon) is read as netlink's binary form of it is: the word as
-- it stands in memory, and the port in network order.
pub parse_proc_socket_addr-netlink :
    (raw raw_port w1 w2 w3 : ℕ)
    → raw < 2 ^ 32
    → raw_port < 2 ^ 16
    → parse_proc_socket_addr (hex 8 raw [] ++ (58 ∷ hex 4 (u16_from_be raw_port) [])) true
      ≡ socket_addr_from_diag 2 (raw, w1, w2, w3) raw_port
unfolding parse_proc_socket_addr ip_from_hex socket_addr_from_diag bind
parse_proc_socket_addr-netlink raw raw_port w1 w2 w3 hr hp =
    let (p, q, r, s) = big_bytes raw hr in
    rw
      (
        split_on-append 58 (hex 8 raw []) (hex 4 (u16_from_be raw_port) [])
            (hex-ne 58 hex_char-ne-colon 8 raw),
        split_on_absent 58 (hex 4 (u16_from_be raw_port) [])
            (hex-ne 58 hex_char-ne-colon 4 (u16_from_be raw_port)),
        from_str_radix-hex4 (u16_from_be raw_port) small,
        length-hex 8 raw [],
        from_str_radix-hex8 raw hr,
        p,
        q,
        r,
        s,
      )
      refl
  where
    small : u16_from_be raw_port < 2 ^ 16
    small = unfold u16_from_be in omega arith
