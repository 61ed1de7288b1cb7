-- ===== src/Capture/Packet/RoundTrip.antt =====
-- Parts of a frame, and IPv4 packets written out byte by byte.
use netmon.Base.{
  ℕ, ◌+◌, ◌-◌, ◌*◌, ◌/◌, ◌%◌, ◌^◌, ◌≤◌, ◌<◌, ◌≡◌, refl, sym, ap, ◌∙◌, ◌⊎◌, true, leb, nat_eq, List,
  ◌∷◌, ◌++◌, arith, length, drop, get_elem?, drop-add, drop-append, take-append, length-drop,
  get_elem?-drop, length-append,
}
use netmon.Base.Bits.{low_nibble}
use netmon.Base.Outcome.{ret, ◌>>=◌, ◌>>◌, guard, index, slice, index_eq}
use netmon.Net.{v4, v6}
use netmon.Capture.Packet.{
  ParsedL4, Skip, read_u16, read_ipv4_address, read_ipv6_address, parse_ipv4, protocol_from_num,
  is_transport,
}

-- `rest` stands at offset `i` of the frame.
abbrev pub At : List ℕ → ℕ → List ℕ → Type 0
At bytes i rest = drop i bytes ≡ rest

pub At-later :
    (bytes : List ℕ) (i k : ℕ) (rest : List ℕ) → At bytes i rest → At bytes (i + k) (drop k rest)
At-later bytes i k rest h = drop-add i k bytes ∙ ap (drop k) h

pub At-index :
    (bytes : List ℕ) (i b : ℕ) (rest : List ℕ)
    → At bytes i (b ∷ rest)
    → index {E = Skip} bytes i ≡ ret b
At-index bytes i b rest h =
    index_eq bytes i b (get_elem?-drop i bytes ∙ ap (λ xs. get_elem? xs 0) h)

At-length :
    (bytes : List ℕ) (i : ℕ) (rest : List ℕ) → At bytes i rest → length bytes - i ≡ length rest
At-length bytes i rest h = sym (length-drop i bytes) ∙ ap length h

pub At-within :
    (bytes : List ℕ) (i k : ℕ) (rest : List ℕ)
    → At bytes i rest
    → 0 < k
    → k ≤ length rest
    → leb (i + k) (length bytes) ≡ true
At-within bytes i k rest h p q = ground (arith, At-length bytes i rest h)

pub At-read_u16 :
    (bytes : List ℕ) (i a b : ℕ) (rest : List ℕ)
    → At bytes i (a ∷ b ∷ rest)
    → read_u16 bytes i ≡ ret (a * 256 + b)
unfolding read_u16 ◌>>=◌
At-read_u16 bytes i a b rest h =
    rw (At-index bytes i a (b ∷ rest) h, At-index bytes (i + 1) b rest (At-later bytes i 1 _ h))

At-read_ipv4_address :
    (bytes : List ℕ) (i a b c d : ℕ) (rest : List ℕ)
    → At bytes i (a ∷ b ∷ c ∷ d ∷ rest)
    → read_ipv4_address bytes i ≡ ret (v4 a b c d)
unfolding read_ipv4_address ◌>>=◌
At-read_ipv4_address bytes i a b c d rest h = rw (
  At-index bytes i a (b ∷ c ∷ d ∷ rest) h,
  At-index bytes (i + 1) b (c ∷ d ∷ rest) (At-later bytes i 1 _ h),
  At-index bytes (i + 2) c (d ∷ rest) (At-later bytes i 2 _ h),
  At-index bytes (i + 3) d rest (At-later bytes i 3 _ h),
)

At-slice :
    (bytes : List ℕ) (i : ℕ) (xs rest : List ℕ)
    → At bytes i (xs ++ rest)
    → 0 < length xs
    → slice {E = Skip} bytes i (i + length xs) ≡ ret xs
unfolding slice
At-slice bytes i xs rest h p = rw (
  from_le,
  At-within bytes i (length xs) (xs ++ rest) h p (omega (arith, length-append xs rest)),
  width,
  h,
  take-append xs rest,
)
  where
    from_le : leb i (i + length xs) ≡ true
    from_le = ground arith

    width : i + length xs - i ≡ length xs
    width = omega arith

pub At-read_ipv6_address :
    (bytes : List ℕ) (i : ℕ) (xs rest : List ℕ)
    → length xs ≡ 16
    → At bytes i (xs ++ rest)
    → read_ipv6_address bytes i ≡ ret (v6 xs)
unfolding read_ipv6_address ◌>>=◌ ◌>>◌ guard
At-read_ipv6_address bytes i xs rest n h = rw (
  ← n,
  At-within bytes i (length xs) (xs ++ rest) h (omega arith) (omega (arith, length-append xs rest)),
  At-slice bytes i xs rest h (omega arith),
)

-- The two ports in network order, and the payload.
abbrev pub ports : ℕ → ℕ → List ℕ → List ℕ
ports src dst payload = (src / 256) ∷ (src % 256) ∷ (dst / 256) ∷ (dst % 256) ∷ payload

abbrev pub Octets : Type 0
Octets = ℕ × ℕ × ℕ × ℕ

-- An IPv4 packet: a header of `ihl` words, whose fields that the parser skips are free, and a
-- transport segment.
pub record Ipv4Packet : Type 0 where
  pub ihl : ℕ
  pub tos_to_ttl : ℕ × ℕ × ℕ × ℕ × ℕ × ℕ × ℕ × ℕ
  pub protocol_number : ℕ
  pub checksum : ℕ × ℕ
  pub src : Octets
  pub dst : Octets
  pub options : List ℕ
  pub src_port : ℕ
  pub dst_port : ℕ
  pub payload : List ℕ

abbrev pub ipv4_bytes : Ipv4Packet → List ℕ
ipv4_bytes p =
    let t = p.tos_to_ttl in
    (64 + p.ihl)
    ∷ t.0
    ∷ t.1
    ∷ t.2
    ∷ t.3
    ∷ t.4
    ∷ t.5
    ∷ t.6
    ∷ t.7
    ∷ p.protocol_number
    ∷ p.checksum.0
    ∷ p.checksum.1
    ∷ p.src.0
    ∷ p.src.1
    ∷ p.src.2
    ∷ p.src.3
    ∷ p.dst.0
    ∷ p.dst.1
    ∷ p.dst.2
    ∷ p.dst.3
    ∷ (p.options ++ ports p.src_port p.dst_port p.payload)

pub record IsIpv4 (p : Ipv4Packet) : Type 0 where
  pub header : 5 ≤ p.ihl
  pub nibble : p.ihl < 16
  pub padded : length p.options ≡ (p.ihl - 5) * 4
  pub transport : (p.protocol_number ≡ 6) ⊎ (p.protocol_number ≡ 17)

abbrev pub ipv4_parsed : Ipv4Packet → ParsedL4
ipv4_parsed p = record {
  src_ip = v4 p.src.0 p.src.1 p.src.2 p.src.3;
  dst_ip = v4 p.dst.0 p.dst.1 p.dst.2 p.dst.3;
  src_port = p.src_port;
  dst_port = p.dst_port;
  protocol = protocol_from_num p.protocol_number;
}

pub transport_accepted : (n : ℕ) → (n ≡ 6) ⊎ (n ≡ 17) → is_transport (protocol_from_num n) ≡ true
unfolding protocol_from_num
transport_accepted n h = ground arith

pub port_bytes : (n : ℕ) → n / 256 * 256 + n % 256 ≡ n
port_bytes n = omega arith

length-ipv4_bytes :
    (p : Ipv4Packet) → IsIpv4 p → length (ipv4_bytes p) ≡ p.ihl * 4 + 4 + length p.payload
length-ipv4_bytes p v =
    omega
      (arith, v.header, v.padded, length-append p.options (ports p.src_port p.dst_port p.payload))

ipv4_segment :
    (p : Ipv4Packet)
    → IsIpv4 p
    → drop (p.ihl * 4) (ipv4_bytes p) ≡ ports p.src_port p.dst_port p.payload
ipv4_segment p v = rw header_len (
    drop-add 20 (length p.options) (ipv4_bytes p)
    ∙ drop-append p.options (ports p.src_port p.dst_port p.payload))
  where
    header_len : p.ihl * 4 ≡ 20 + length p.options
    header_len = omega (arith, v.header, v.padded)

-- Wherever it stands in a frame, a well-formed IPv4 packet is read as its own endpoints.
pub parse_ipv4-bytes :
    (bytes : List ℕ) (l3 : ℕ) (p : Ipv4Packet)
    → At bytes l3 (ipv4_bytes p)
    → IsIpv4 p
    → parse_ipv4 bytes l3 ≡ ret (ipv4_parsed p)
unfolding parse_ipv4 ◌>>=◌ ◌>>◌ guard
parse_ipv4-bytes bytes l3 p h v =
    rw
      (
        At-within bytes l3 20 _ h (omega arith) (omega arith),
        At-index bytes l3 _ _ h,
        version,
        low_nibble p.ihl v.nibble,
        long_enough,
        At-within bytes l3 (p.ihl * 4) _ h (omega (arith, v.header))
            (omega (arith, length-ipv4_bytes p v)),
        At-index bytes (l3 + 9) _ _ (At-later bytes l3 9 _ h),
        At-read_ipv4_address bytes (l3 + 12) _ _ _ _ _ (At-later bytes l3 12 _ h),
        At-read_ipv4_address bytes (l3 + 16) _ _ _ _ _ (At-later bytes l3 16 _ h),
        At-within bytes (l3 + p.ihl * 4) 4 _ segment (omega arith) (omega arith),
        At-read_u16 bytes (l3 + p.ihl * 4) _ _ _ segment,
        At-read_u16 bytes (l3 + p.ihl * 4 + 2) _ _ _ (At-later bytes (l3 + p.ihl * 4) 2 _ segment),
        transport_accepted p.protocol_number v.transport,
        port_bytes p.src_port,
        port_bytes p.dst_port,
      )
      refl
  where
    version : nat_eq ((64 + p.ihl) / 2 ^ 4) 4 ≡ true
    version = ground (arith, v.nibble)

    long_enough : leb 20 (p.ihl * 4) ≡ true
    long_enough = ground (arith, v.header)

    segment : At bytes (l3 + p.ihl * 4) (ports p.src_port p.dst_port p.payload)
    segment = At-later bytes l3 (p.ihl * 4) _ h ∙ ipv4_segment p v
