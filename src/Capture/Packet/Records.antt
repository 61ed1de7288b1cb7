-- ===== src/Capture/Packet/Records.antt =====
-- What the parser does on any input: it never reads out of bounds, and what a record that it emits
-- looks like.
use Prim.Native.Nat.{bit_and}
use netmon.Base.{
  ℕ, ◌+◌, ◌*◌, ◌^◌, ◌≤◌, ◌<◌, ◌≡◌, refl, ◌≢◌, ◌⊎◌, inl, inr, true, nat_eq, List, [], ◌∷◌, arith,
  leb→le, length, All, if◌then◌else◌,
}
use netmon.Base.Outcome.{
  ret, err, panicked, index, Ensures, gives, fails, Ensures-bind, Ensures-guard, Ensures-index,
  Ensures-slice, Ensures-if, Ensures-ne-panicked, Ensures-ret,
}
use netmon.Net.{IpAddr}
use netmon.Capture.Types.{Protocol, tcp, udp, other, FlowRecord}
use netmon.Capture.Packet.{
  Skip, ParsedL4, read_u16, read_ipv4_address, read_ipv6_address, parse_ipv4, parse_ipv6,
  vlan_layer3, layer3, parse_layer3, parse_packet, non_ip, is_vlan, is_transport, ethertype_ipv4,
  ethertype_ipv6, classify_direction,
}

-- A port is two bytes of the frame.
abbrev PortOf : (ℕ → Type 0) → ℕ → Type 0
PortOf Q n = (a : ℕ) × (b : ℕ) × Q a × Q b × (n ≡ a * 256 + b)

record TransportOf (Q : ℕ → Type 0) (p : ParsedL4) : Type 0 where
  protocol : is_transport p.protocol ≡ true
  src_port : PortOf Q p.src_port
  dst_port : PortOf Q p.dst_port

abbrev Anything : {A : Type 0} → A → Type 0
Anything a = Unit {0}

module _ (Q : ℕ → Type 0) (bytes : List ℕ) (good : All Q bytes) where
  at_index : (i : ℕ) → i < length bytes → Ensures Q (index {E = Skip} bytes i)
  at_index i h = Ensures-index Q bytes i good h

  read_u16_lem : (i : ℕ) → i + 2 ≤ length bytes → Ensures (PortOf Q) (read_u16 bytes i)
  unfolding read_u16
  read_u16_lem i h =
      Ensures-bind (at_index i (omega arith))
        λ a qa. Ensures-bind (at_index (i + 1) (omega arith)) λ b qb. gives _ (a, b, qa, qb, refl)

  read_ipv4_address_lem :
      (i : ℕ) → i + 4 ≤ length bytes → Ensures Anything (read_ipv4_address bytes i)
  unfolding read_ipv4_address
  read_ipv4_address_lem i h = Ensures-bind (at_index i (omega arith)) λ a _.
      Ensures-bind (at_index (i + 1) (omega arith)) λ b _.
        Ensures-bind (at_index (i + 2) (omega arith))
          λ c _. Ensures-bind (at_index (i + 3) (omega arith)) λ d _. gives _ tt

  read_ipv6_address_lem : (i : ℕ) → Ensures Anything (read_ipv6_address bytes i)
  unfolding read_ipv6_address
  read_ipv6_address_lem i = Ensures-guard _ _ λ h.
      Ensures-bind (Ensures-slice bytes i (i + 16) (omega arith) (leb→le _ _ h)) λ o _. gives _ tt

  parse_ipv4_lem : (l3 : ℕ) → Ensures (TransportOf Q) (parse_ipv4 bytes l3)
  unfolding parse_ipv4
  parse_ipv4_lem l3 = Ensures-guard _ _ λ header.
      let fits : l3 + 20 ≤ length bytes = leb→le _ _ header in
      Ensures-bind (at_index l3 (omega arith)) λ version_ihl _. Ensures-guard _ _ λ _.
        Ensures-guard _ _ λ _. Ensures-bind (at_index (l3 + 9) (omega arith)) λ proto _.
          Ensures-bind (read_ipv4_address_lem (l3 + 12) (omega arith)) λ src _.
            Ensures-bind (read_ipv4_address_lem (l3 + 16) (omega arith)) λ dst _.
              Ensures-guard _ _ λ segment.
                let l4 = l3 + bit_and version_ihl 0x0f * 4 in
                let room : l4 + 4 ≤ length bytes = leb→le _ _ segment in
                Ensures-bind (read_u16_lem l4 (omega arith)) λ sport s.
                  Ensures-bind (read_u16_lem (l4 + 2) (omega arith)) λ dport d.
                    Ensures-guard _ _
                      λ t. gives _ (record { protocol = t; src_port = s; dst_port = d })

  parse_ipv6_lem : (l3 : ℕ) → Ensures (TransportOf Q) (parse_ipv6 bytes l3)
  unfolding parse_ipv6
  parse_ipv6_lem l3 = Ensures-guard _ _ λ header.
      let fits : l3 + 40 ≤ length bytes = leb→le _ _ header in
      Ensures-bind (at_index l3 (omega arith)) λ version _. Ensures-guard _ _ λ _.
        Ensures-bind (at_index (l3 + 6) (omega arith)) λ next _.
          Ensures-bind (read_ipv6_address_lem (l3 + 8)) λ src _.
            Ensures-bind (read_ipv6_address_lem (l3 + 24)) λ dst _. Ensures-guard _ _ λ segment.
              let room : l3 + 40 + 4 ≤ length bytes = leb→le _ _ segment in
              Ensures-bind (read_u16_lem (l3 + 40) (omega arith)) λ sport s.
                Ensures-bind (read_u16_lem (l3 + 40 + 2) (omega arith)) λ dport d.
                  Ensures-guard _ _
                    λ t. gives _ (record { protocol = t; src_port = s; dst_port = d })

  layer3_lem : Ensures Anything (layer3 bytes)
  unfolding layer3 vlan_layer3
  layer3_lem = Ensures-guard _ _ λ header.
      let fits : 14 ≤ length bytes = leb→le _ _ header in
      Ensures-bind (read_u16_lem 12 (omega arith)) λ t _.
        Ensures-if (is_vlan t)
          (λ _. Ensures-guard _ _ λ tagged.
            let room : 18 ≤ length bytes = leb→le _ _ tagged in
            Ensures-bind (read_u16_lem 16 (omega arith)) λ u _. gives _ tt)
          (λ _. gives _ tt)

  parse_layer3_lem : (t l3 : ℕ) → Ensures (TransportOf Q) (parse_layer3 bytes t l3)
  unfolding parse_layer3
  parse_layer3_lem t l3 =
      Ensures-if (nat_eq t ethertype_ipv4)
        {n = if nat_eq t ethertype_ipv6 then parse_ipv6 bytes l3 else err non_ip}
        (λ _. parse_ipv4_lem l3)
        (λ _.
          Ensures-if (nat_eq t ethertype_ipv6) {n = err non_ip} (λ _. parse_ipv6_lem l3)
            (λ _. fails non_ip))

-- What the fields of a record are, for the arguments of the call.
pub record IsRecordOf (packet_len : ℕ) (local_ips : List IpAddr) (now : ℕ) (r : FlowRecord)
    : Type 0 where
  pub protocol : (r.key.protocol ≡ tcp) ⊎ (r.key.protocol ≡ udp)
  pub src_port : r.key.src_port < 2 ^ 16
  pub dst_port : r.key.dst_port < 2 ^ 16
  pub byte_count : r.byte_count ≡ packet_len
  pub timestamp : r.timestamp ≡ now
  pub direction : r.direction ≡ classify_direction local_ips r.key.src_ip r.key.dst_ip

abbrev IsByte : ℕ → Type 0
IsByte b = b < 256

transport_cases : (p : Protocol) → is_transport p ≡ true → (p ≡ tcp) ⊎ (p ≡ udp)
transport_cases tcp h = inl refl
transport_cases udp h = inr refl
transport_cases (other n) h = cc

port_bound : (n : ℕ) → PortOf IsByte n → n < 2 ^ 16
port_bound n (a, b, p, q, e) = omega arith

parse_packet_lem :
    (Q : ℕ → Type 0) (bytes : List ℕ) (packet_len : ℕ) (local_ips : List IpAddr) (now : ℕ)
    → All Q bytes
    → Ensures
        (λ (r : FlowRecord).
          ((r.key.protocol ≡ tcp) ⊎ (r.key.protocol ≡ udp))
          × PortOf Q r.key.src_port
          × PortOf Q r.key.dst_port
          × (r.byte_count ≡ packet_len)
          × (r.timestamp ≡ now)
          × (r.direction ≡ classify_direction local_ips r.key.src_ip r.key.dst_ip))
        (parse_packet bytes packet_len local_ips now)
unfolding parse_packet
parse_packet_lem Q bytes packet_len local_ips now good =
    Ensures-bind (layer3_lem Q bytes good) λ p _.
      Ensures-bind (parse_layer3_lem Q bytes good p.0 p.1) λ l4 t.
        gives _ (transport_cases l4.protocol t.protocol, t.src_port, t.dst_port, refl, refl, refl)

All-Anything : (xs : List ℕ) → All Anything xs
All-Anything [] = tt
All-Anything (x ∷ xs) = (tt, All-Anything xs)

-- `parse_packet` returns on every byte sequence: it yields a record or skips the frame, and never
-- indexes or slices out of range.
pub parse_packet-ne-panicked :
    (bytes : List ℕ) (packet_len : ℕ) (local_ips : List IpAddr) (now : ℕ)
    → parse_packet bytes packet_len local_ips now ≢ panicked
parse_packet-ne-panicked bytes packet_len local_ips now =
    Ensures-ne-panicked _
      (parse_packet_lem Anything bytes packet_len local_ips now (All-Anything bytes))

-- On any bytes, a record that `parse_packet` emits is of TCP or UDP, has ports below 2^16, counts
-- the packet's length on the wire, and has the direction that its two addresses give.
pub parse_packet-IsRecordOf :
    (bytes : List ℕ) (packet_len : ℕ) (local_ips : List IpAddr) (now : ℕ) (r : FlowRecord)
    → All (λ b. b < 256) bytes
    → parse_packet bytes packet_len local_ips now ≡ ret r
    → IsRecordOf packet_len local_ips now r
parse_packet-IsRecordOf bytes packet_len local_ips now r good e =
    let (p, s, d, c, t, w) =
      Ensures-ret _ _ r (parse_packet_lem IsByte bytes packet_len local_ips now good) e in
    record {
      protocol = p;
      src_port = port_bound _ s;
      dst_port = port_bound _ d;
      byte_count = c;
      timestamp = t;
      direction = w;
    }
