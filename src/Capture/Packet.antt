-- ===== src/Capture/Packet.antt =====
-- The frame parser of crates/capture/src/lib.rs: `parse_packet` and what it calls.
-- A frame is a list of bytes. `Skip` names the debug line that an early `return None` logs.
pub mod RoundTrip
pub mod RoundTrip6
pub mod Frame
pub mod Records
use Prim.Native.Nat.{bit_and}
use netmon.Base.{
  ℕ, zero, suc, ◌+◌, ◌*◌, ◌/◌, ◌^◌, ◌≡◌, Bool, true, false, ◌&&◌, ◌||◌, List, [], ◌∷◌, Option, none,
  some, leb, nat_eq, ◌==◌, if◌then◌else◌, length,
}
use netmon.Base.Outcome.{Outcome, ret, err, panicked, ◌>>=◌, ◌>>◌, guard, index, slice}
use netmon.Net.{IpAddr, v4, v6, ip_eq}
use netmon.Capture.Types.{Protocol, tcp, udp, other, Direction, tx, rx, FlowKey, FlowRecord}

pub data Skip : Type 0 where
  short_ethernet short_vlan non_ip : Skip
  short_ipv4 non_ipv4 invalid_ihl short_ipv4_transport non_tcp_udp_ipv4 : Skip
  short_ipv6 non_ipv6 short_ipv6_address short_ipv6_transport non_tcp_udp_ipv6 : Skip

abbrev pub ethernet_header_len : ℕ
ethernet_header_len = 14

abbrev pub vlan_ethernet_header_len : ℕ
vlan_ethernet_header_len = 18

abbrev pub ethertype_ipv4 : ℕ
ethertype_ipv4 = 0x0800

abbrev pub ethertype_ipv6 : ℕ
ethertype_ipv6 = 0x86dd

abbrev pub ethertype_vlan_8021q : ℕ
ethertype_vlan_8021q = 0x8100

abbrev pub ethertype_vlan_8021ad : ℕ
ethertype_vlan_8021ad = 0x88a8

abbrev pub ipv4_min_header_len : ℕ
ipv4_min_header_len = 20

abbrev pub ipv6_header_len : ℕ
ipv6_header_len = 40

-- `u16::from_be_bytes([a, b])`
abbrev pub u16_from_be_bytes : ℕ → ℕ → ℕ
u16_from_be_bytes a b = a * 256 + b

unfoldable pub protocol_from_num : ℕ → Protocol
protocol_from_num n = if nat_eq n 6 then tcp else if nat_eq n 17 then udp else other n

-- `matches!(protocol, Protocol::Other(_))`
abbrev pub is_other : Protocol → Bool
is_other tcp = false
is_other udp = false
is_other (other n) = true

unfoldable pub contains_ip : List IpAddr → IpAddr → Bool
contains_ip [] a = false
contains_ip (x ∷ xs) a = a == x || contains_ip xs a

unfoldable pub classify_direction : List IpAddr → IpAddr → IpAddr → Direction
classify_direction local_ips src_ip dst_ip =
    if contains_ip local_ips src_ip then tx else if contains_ip local_ips dst_ip then rx else tx

pub record ParsedL4 : Type 0 where
  pub src_ip : IpAddr
  pub dst_ip : IpAddr
  pub src_port : ℕ
  pub dst_port : ℕ
  pub protocol : Protocol

-- Two bytes in network order.
unfoldable pub read_u16 : List ℕ → ℕ → Outcome Skip ℕ
read_u16 bytes i = do a ← index bytes i; b ← index bytes (i + 1); ret (u16_from_be_bytes a b)

-- Four octets, as `Ipv4Addr::new`.
unfoldable pub read_ipv4_address : List ℕ → ℕ → Outcome Skip IpAddr
read_ipv4_address bytes i = do
  a ← index bytes i
  b ← index bytes (i + 1)
  c ← index bytes (i + 2)
  d ← index bytes (i + 3)
  ret (v4 a b c d)

unfoldable pub read_ipv6_address : List ℕ → ℕ → Outcome Skip IpAddr
read_ipv6_address bytes offset = do
  guard (leb (offset + 16) (length bytes)) short_ipv6_address
  octets ← slice bytes offset (offset + 16)
  ret (v6 octets)

-- `not` of the library, as a test that computes here.
abbrev is_transport : Protocol → Bool
is_transport p = if is_other p then false else true

unfoldable pub parse_ipv4 : List ℕ → ℕ → Outcome Skip ParsedL4
parse_ipv4 bytes l3 = do
  guard (leb (l3 + ipv4_min_header_len) (length bytes)) short_ipv4
  version_ihl ← index bytes l3
  guard (nat_eq (version_ihl / 2 ^ 4) 4) non_ipv4
  let ihl = bit_and version_ihl 0x0f * 4
  guard (leb ipv4_min_header_len ihl && leb (l3 + ihl) (length bytes)) invalid_ihl
  protocol_number ← index bytes (l3 + 9)
  src_ip ← read_ipv4_address bytes (l3 + 12)
  dst_ip ← read_ipv4_address bytes (l3 + 16)
  let l4 = l3 + ihl
  guard (leb (l4 + 4) (length bytes)) short_ipv4_transport
  src_port ← read_u16 bytes l4
  dst_port ← read_u16 bytes (l4 + 2)
  let protocol = protocol_from_num protocol_number
  guard (is_transport protocol) non_tcp_udp_ipv4
  ret (record {
    src_ip = src_ip;
    dst_ip = dst_ip;
    src_port = src_port;
    dst_port = dst_port;
    protocol = protocol;
  })

unfoldable pub parse_ipv6 : List ℕ → ℕ → Outcome Skip ParsedL4
parse_ipv6 bytes l3 = do
  guard (leb (l3 + ipv6_header_len) (length bytes)) short_ipv6
  version_class ← index bytes l3
  guard (nat_eq (version_class / 2 ^ 4) 6) non_ipv6
  next_header ← index bytes (l3 + 6)
  src_ip ← read_ipv6_address bytes (l3 + 8)
  dst_ip ← read_ipv6_address bytes (l3 + 24)
  let l4 = l3 + ipv6_header_len
  guard (leb (l4 + 4) (length bytes)) short_ipv6_transport
  src_port ← read_u16 bytes l4
  dst_port ← read_u16 bytes (l4 + 2)
  let protocol = protocol_from_num next_header
  guard (is_transport protocol) non_tcp_udp_ipv6
  ret (record {
    src_ip = src_ip;
    dst_ip = dst_ip;
    src_port = src_port;
    dst_port = dst_port;
    protocol = protocol;
  })

abbrev pub is_vlan : ℕ → Bool
is_vlan t = nat_eq t ethertype_vlan_8021q || nat_eq t ethertype_vlan_8021ad

-- The branch for a VLAN-tagged frame.
unfoldable pub vlan_layer3 : List ℕ → Outcome Skip (ℕ × ℕ)
vlan_layer3 bytes = do
  guard (leb vlan_ethernet_header_len (length bytes)) short_vlan
  inner_type ← read_u16 bytes 16
  ret (inner_type, vlan_ethernet_header_len)

-- The ethertype behind an optional VLAN tag, and where layer 3 starts.
unfoldable pub layer3 : List ℕ → Outcome Skip (ℕ × ℕ)
layer3 bytes = do
  guard (leb ethernet_header_len (length bytes)) short_ethernet
  ether_type ← read_u16 bytes 12
  if is_vlan ether_type then vlan_layer3 bytes else ret (ether_type, ethernet_header_len)

unfoldable pub parse_layer3 : List ℕ → ℕ → ℕ → Outcome Skip ParsedL4
parse_layer3 bytes ether_type l3 =
    if nat_eq ether_type ethertype_ipv4
    then parse_ipv4 bytes l3
    else if nat_eq ether_type ethertype_ipv6
    then parse_ipv6 bytes l3
    else err non_ip

unfoldable pub parse_packet : List ℕ → ℕ → List IpAddr → ℕ → Outcome Skip FlowRecord
parse_packet bytes packet_len local_ips now = do
  (ether_type, l3) ← layer3 bytes
  parsed ← parse_layer3 bytes ether_type l3
  ret (record {
    key = record {
      src_ip = parsed.src_ip;
      dst_ip = parsed.dst_ip;
      src_port = parsed.src_port;
      dst_port = parsed.dst_port;
      protocol = parsed.protocol;
    };
    byte_count = packet_len;
    timestamp = now;
    direction = classify_direction local_ips parsed.src_ip parsed.dst_ip;
  })
