-- ===== src/Capture/Packet/RoundTrip6.antt =====
-- IPv6 packets written out byte by byte are read back.
use netmon.Base.{
  ℕ, ◌+◌, ◌/◌, ◌^◌, ◌<◌, ◌≡◌, refl, sym, ap, ◌∙◌, ◌⊎◌, true, nat_eq, List, ◌∷◌, ◌++◌, arith, length,
  drop, drop-append, length-append,
}
use netmon.Base.Outcome.{ret, ◌>>=◌, ◌>>◌, guard}
use netmon.Net.{v6}
use netmon.Capture.Packet.{ParsedL4, parse_ipv6, protocol_from_num}
use netmon.Capture.Packet.RoundTrip.{
  At, At-later, At-index, At-within, At-read_u16, At-read_ipv6_address, ports, transport_accepted,
  port_bytes,
}

-- An IPv6 packet without extension headers.
pub record Ipv6Packet : Type 0 where
  pub class : ℕ
  pub label_and_length : ℕ × ℕ × ℕ × ℕ × ℕ
  pub next_header : ℕ
  pub hop_limit : ℕ
  pub src : List ℕ
  pub dst : List ℕ
  pub src_port : ℕ
  pub dst_port : ℕ
  pub payload : List ℕ

abbrev pub ipv6_bytes : Ipv6Packet → List ℕ
ipv6_bytes p =
    let t = p.label_and_length in
    (96 + p.class)
    ∷ t.0
    ∷ t.1
    ∷ t.2
    ∷ t.3
    ∷ t.4
    ∷ p.next_header
    ∷ p.hop_limit
    ∷ (p.src ++ (p.dst ++ ports p.src_port p.dst_port p.payload))

pub record IsIpv6 (p : Ipv6Packet) : Type 0 where
  pub nibble : p.class < 16
  pub src_octets : length p.src ≡ 16
  pub dst_octets : length p.dst ≡ 16
  pub transport : (p.next_header ≡ 6) ⊎ (p.next_header ≡ 17)

abbrev pub ipv6_parsed : Ipv6Packet → ParsedL4
ipv6_parsed p = record {
  src_ip = v6 p.src;
  dst_ip = v6 p.dst;
  src_port = p.src_port;
  dst_port = p.dst_port;
  protocol = protocol_from_num p.next_header;
}

-- Wherever it stands in a frame, a well-formed IPv6 packet is read as its own endpoints.
pub parse_ipv6-bytes :
    (bytes : List ℕ) (l3 : ℕ) (p : Ipv6Packet)
    → At bytes l3 (ipv6_bytes p)
    → IsIpv6 p
    → parse_ipv6 bytes l3 ≡ ret (ipv6_parsed p)
unfolding parse_ipv6 ◌>>=◌ ◌>>◌ guard
parse_ipv6-bytes bytes l3 p h v =
    rw
      (
        At-within bytes l3 40 _ h (omega arith) (
            omega (
              arith,
              length-append p.src (p.dst ++ tail),
              length-append p.dst tail,
              v.src_octets,
              v.dst_octets,
            )),
        At-index bytes l3 _ _ h,
        version,
        At-index bytes (l3 + 6) _ _ (At-later bytes l3 6 _ h),
        At-read_ipv6_address bytes (l3 + 8) p.src _ v.src_octets (At-later bytes l3 8 _ h),
        At-read_ipv6_address bytes (l3 + 24) p.dst tail v.dst_octets at_dst,
        At-within bytes (l3 + 40) 4 _ segment (omega arith) (omega arith),
        At-read_u16 bytes (l3 + 40) _ _ _ segment,
        At-read_u16 bytes (l3 + 40 + 2) _ _ _ (At-later bytes (l3 + 40) 2 _ segment),
        transport_accepted p.next_header v.transport,
        port_bytes p.src_port,
        port_bytes p.dst_port,
      )
      refl
  where
    tail : List ℕ
    tail = ports p.src_port p.dst_port p.payload

    version : nat_eq ((96 + p.class) / 2 ^ 4) 6 ≡ true
    version = ground (arith, v.nibble)

    next_field :
        (i : ℕ) (xs rest : List ℕ)
        → At bytes i (xs ++ rest)
        → length xs ≡ 16
        → At bytes (i + 16) rest
    next_field i xs rest k n =
        ap (λ m. drop (i + m) bytes) (sym n)
        ∙ At-later bytes i (length xs) _ k
        ∙ drop-append xs rest

    same_place : (a b : ℕ) (rest : List ℕ) → a ≡ b → At bytes a rest → At bytes b rest
    same_place a b rest e k = rw (← e) k

    at_dst : At bytes (l3 + 24) (p.dst ++ tail)
    at_dst =
        same_place (l3 + 8 + 16) (l3 + 24) _ (omega arith)
          (next_field (l3 + 8) p.src (p.dst ++ tail) (At-later bytes l3 8 _ h) v.src_octets)

    segment : At bytes (l3 + 40) tail
    segment =
        same_place (l3 + 24 + 16) (l3 + 40) _ (omega arith)
          (next_field (l3 + 24) p.dst tail at_dst v.dst_octets)
