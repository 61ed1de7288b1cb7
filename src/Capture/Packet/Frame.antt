-- ===== src/Capture/Packet/Frame.antt =====
-- Whole Ethernet frames: an optional VLAN tag around an IPv4 or IPv6 packet.
use netmon.Base.{ℕ, ◌+◌, ◌*◌, ◌≡◌, refl, true, leb, List, ◌∷◌, ◌++◌, arith, length, drop-append}
use netmon.Base.Outcome.{ret, ◌>>=◌, ◌>>◌, guard}
use netmon.Net.{IpAddr}
use netmon.Capture.Types.{FlowRecord}
use netmon.Capture.Packet.{
  ParsedL4, read_u16, is_vlan, layer3, vlan_layer3, parse_layer3, parse_packet, classify_direction,
}
use netmon.Capture.Packet.RoundTrip.{
  At, At-later, At-within, At-read_u16, Ipv4Packet, IsIpv4, ipv4_bytes, ipv4_parsed,
  parse_ipv4-bytes,
}
use netmon.Capture.Packet.RoundTrip6.{Ipv6Packet, IsIpv6, ipv6_bytes, ipv6_parsed, parse_ipv6-bytes}

-- No tag, an 802.1Q tag or an 802.1ad tag with its control bytes.
pub data Tag : Type 0 where
  untagged : Tag
  tag_8021q : ℕ → ℕ → Tag
  tag_8021ad : ℕ → ℕ → Tag

pub data IpPacket : Type 0 where
  ipv4 : Ipv4Packet → IpPacket
  ipv6 : Ipv6Packet → IpPacket

abbrev pub typed_bytes : IpPacket → List ℕ
typed_bytes (ipv4 p) = 0x08 ∷ 0x00 ∷ ipv4_bytes p
typed_bytes (ipv6 p) = 0x86 ∷ 0xdd ∷ ipv6_bytes p

abbrev pub tagged_bytes : Tag → List ℕ → List ℕ
tagged_bytes untagged rest = rest
tagged_bytes (tag_8021q a b) rest = 0x81 ∷ 0x00 ∷ a ∷ b ∷ rest
tagged_bytes (tag_8021ad a b) rest = 0x88 ∷ 0xa8 ∷ a ∷ b ∷ rest

-- The two MAC addresses come first.
abbrev pub frame_bytes : List ℕ → Tag → IpPacket → List ℕ
frame_bytes macs tag packet = macs ++ tagged_bytes tag (typed_bytes packet)

abbrev pub IsIp : IpPacket → Type 0
IsIp (ipv4 p) = IsIpv4 p
IsIp (ipv6 p) = IsIpv6 p

abbrev pub parsed : IpPacket → ParsedL4
parsed (ipv4 p) = ipv4_parsed p
parsed (ipv6 p) = ipv6_parsed p

abbrev ether_type : IpPacket → ℕ
ether_type (ipv4 p) = 0x0800
ether_type (ipv6 p) = 0x86dd

abbrev packet_bytes : IpPacket → List ℕ
packet_bytes (ipv4 p) = ipv4_bytes p
packet_bytes (ipv6 p) = ipv6_bytes p

abbrev l3_offset : Tag → ℕ
l3_offset untagged = 14
l3_offset (tag_8021q a b) = 18
l3_offset (tag_8021ad a b) = 18

At-macs : (macs rest : List ℕ) → length macs ≡ 12 → At (macs ++ rest) 12 rest
At-macs macs rest n = rw (← n) (drop-append macs rest)

At-packet :
    (bytes : List ℕ) (i : ℕ) (packet : IpPacket)
    → At bytes i (typed_bytes packet)
    → At bytes (i + 2) (packet_bytes packet)
At-packet bytes i (ipv4 p) h = At-later bytes i 2 _ h
At-packet bytes i (ipv6 p) h = At-later bytes i 2 _ h

read_type :
    (bytes : List ℕ) (i : ℕ) (packet : IpPacket)
    → At bytes i (typed_bytes packet)
    → (read_u16 bytes i ≡ ret (ether_type packet)) × (leb (i + 2) (length bytes) ≡ true)
read_type bytes i (ipv4 p) h =
    (At-read_u16 bytes i _ _ _ h, At-within bytes i 2 _ h (omega arith) (omega arith))
read_type bytes i (ipv6 p) h =
    (At-read_u16 bytes i _ _ _ h, At-within bytes i 2 _ h (omega arith) (omega arith))

untagged-layer3 :
    (bytes : List ℕ) (packet : IpPacket)
    → At bytes 12 (typed_bytes packet)
    → layer3 bytes ≡ ret (ether_type packet, 14)
unfolding layer3 ◌>>=◌ ◌>>◌ guard
untagged-layer3 bytes (ipv4 p) h =
    rw ((read_type bytes 12 (ipv4 p) h).1, (read_type bytes 12 (ipv4 p) h).0) refl
untagged-layer3 bytes (ipv6 p) h =
    rw ((read_type bytes 12 (ipv6 p) h).1, (read_type bytes 12 (ipv6 p) h).0) refl

tagged-layer3 :
    (bytes : List ℕ) (packet : IpPacket) (hi lo a b : ℕ)
    → is_vlan (hi * 256 + lo) ≡ true
    → At bytes 12 (hi ∷ lo ∷ a ∷ b ∷ typed_bytes packet)
    → layer3 bytes ≡ ret (ether_type packet, 18)
unfolding layer3 vlan_layer3 ◌>>=◌ ◌>>◌ guard
tagged-layer3 bytes packet hi lo a b vlan h =
    rw
      (
        At-within bytes 12 2 _ h (omega arith) (omega arith),
        At-read_u16 bytes 12 hi lo _ h,
        vlan,
        (read_type bytes 16 packet inner).1,
        (read_type bytes 16 packet inner).0,
      )
      refl
  where
    inner : At bytes 16 (typed_bytes packet)
    inner = At-later bytes 12 4 _ h

layer3-frame :
    (bytes : List ℕ) (tag : Tag) (packet : IpPacket)
    → At bytes 12 (tagged_bytes tag (typed_bytes packet))
    → (layer3 bytes ≡ ret (ether_type packet, l3_offset tag))
      × At bytes (l3_offset tag) (packet_bytes packet)
layer3-frame bytes untagged packet h = (untagged-layer3 bytes packet h, At-packet bytes 12 packet h)
layer3-frame bytes (tag_8021q a b) packet h = (
  tagged-layer3 bytes packet 0x81 0x00 a b refl h,
  At-packet bytes 16 packet (At-later bytes 12 4 _ h),
)
layer3-frame bytes (tag_8021ad a b) packet h = (
  tagged-layer3 bytes packet 0x88 0xa8 a b refl h,
  At-packet bytes 16 packet (At-later bytes 12 4 _ h),
)

parse_layer3-packet :
    (bytes : List ℕ) (l3 : ℕ) (packet : IpPacket)
    → At bytes l3 (packet_bytes packet)
    → IsIp packet
    → parse_layer3 bytes (ether_type packet) l3 ≡ ret (parsed packet)
unfolding parse_layer3
parse_layer3-packet bytes l3 (ipv4 p) h v = parse_ipv4-bytes bytes l3 p h v
parse_layer3-packet bytes l3 (ipv6 p) h v = parse_ipv6-bytes bytes l3 p h v

-- The record that a frame stands for.
abbrev pub record_of : ParsedL4 → ℕ → List IpAddr → ℕ → FlowRecord
record_of l4 packet_len local_ips now = record {
  key = record {
    src_ip = l4.src_ip;
    dst_ip = l4.dst_ip;
    src_port = l4.src_port;
    dst_port = l4.dst_port;
    protocol = l4.protocol;
  };
  byte_count = packet_len;
  timestamp = now;
  direction = classify_direction local_ips l4.src_ip l4.dst_ip;
}

-- Every Ethernet frame, untagged or with one 802.1Q or 802.1ad tag, that carries a well-formed IPv4
-- packet with the protocol TCP or UDP and any options, or an IPv6 packet whose next header is TCP or
-- UDP (so it has no extension headers), is parsed into the addresses, ports and protocol that were
-- written into it, with the packet's length on the wire and its direction.
pub parse_packet-frame_bytes :
    (macs : List ℕ) (tag : Tag) (packet : IpPacket) (packet_len : ℕ) (local_ips : List IpAddr)
    (now : ℕ)
    → length macs ≡ 12
    → IsIp packet
    → parse_packet (frame_bytes macs tag packet) packet_len local_ips now
      ≡ ret (record_of (parsed packet) packet_len local_ips now)
unfolding parse_packet ◌>>=◌
parse_packet-frame_bytes macs tag packet packet_len local_ips now n v =
    rw (facts.0, parse_layer3-packet (frame_bytes macs tag packet) (l3_offset tag) packet facts.1 v)
      refl
  where
    bytes : List ℕ
    bytes = frame_bytes macs tag packet

    facts :
        (layer3 bytes ≡ ret (ether_type packet, l3_offset tag))
        × At bytes (l3_offset tag) (packet_bytes packet)
    facts = layer3-frame bytes tag packet (At-macs macs _ n)
