-- ===== src/Resolver/Netlink/Addresses.antt =====
-- The addresses of a diagnostic message: `socket_addr_from_diag` and `ipv6_from_be_words` of
-- crates/resolver/src/netlink.rs, on the bytes that the kernel wrote in network order.
use netmon.Base.{
  ℕ, ◌+◌, ◌*◌, ◌/◌, ◌%◌, ◌<◌, ◌≡◌, refl, List, [], ◌∷◌, ◌++◌, some, arith, All, ◌^◌, zero, suc,
}
use netmon.Net.{v4, v6, SocketAddr}
use netmon.Resolver.Netlink.{
  u16_from_be, u32_from_be, to_be_bytes, ipv4_from_u32, ipv6_from_be_words, socket_addr_from_diag,
  parse_inet_diag_message,
}
use netmon.Resolver.Netlink.States.{state_name, tcp_state_to_str-state_name}
use netmon.Resolver.Wire.{u32x4_at, le32, read_struct}
use netmon.Base.Outcome.{ret, ok_or, ◌>>=◌}
use netmon.Capture.Types.{Protocol}

abbrev IsByte : ℕ → Type 0
IsByte b = b < 256

word : ℕ → ℕ → ℕ → ℕ → ℕ
word a b c d = a + 256 * b + 65536 * c + 16777216 * d

-- The bytes of a little-endian word.
word_bytes :
    (a b c d : ℕ)
    → a < 256
    → b < 256
    → c < 256
    → d < 256
    → (word a b c d % 256 ≡ a)
      × (word a b c d / 256 % 256 ≡ b)
      × (word a b c d / 65536 % 256 ≡ c)
      × (word a b c d / 16777216 % 256 ≡ d)
unfolding word
word_bytes a b c d ha hb hc hd = (omega arith, omega arith, omega arith, omega arith)

big_bytes :
    (a b c d : ℕ)
    → a < 256
    → b < 256
    → c < 256
    → d < 256
    → let n = a * 16777216 + b * 65536 + c * 256 + d in
      (n / 16777216 % 256 ≡ a) × (n / 65536 % 256 ≡ b) × (n / 256 % 256 ≡ c) × (n % 256 ≡ d)
big_bytes a b c d ha hb hc hd = (omega arith, omega arith, omega arith, omega arith)

u32_from_be-word :
    (a b c d : ℕ)
    → a < 256
    → b < 256
    → c < 256
    → d < 256
    → u32_from_be (word a b c d) ≡ a * 16777216 + b * 65536 + c * 256 + d
unfolding u32_from_be
u32_from_be-word a b c d ha hb hc hd =
    let (p, q, r, s) = word_bytes a b c d ha hb hc hd in rw (p, q, r, s) refl

to_be_bytes-word :
    (a b c d : ℕ)
    → a < 256
    → b < 256
    → c < 256
    → d < 256
    → to_be_bytes (u32_from_be (word a b c d)) ≡ a ∷ b ∷ c ∷ d ∷ []
unfolding to_be_bytes
to_be_bytes-word a b c d ha hb hc hd =
    let (p, q, r, s) = big_bytes a b c d ha hb hc hd in
    rw (u32_from_be-word a b c d ha hb hc hd, p, q, r, s) refl

ipv4_from_u32-word :
    (a b c d : ℕ)
    → a < 256
    → b < 256
    → c < 256
    → d < 256
    → ipv4_from_u32 (u32_from_be (word a b c d)) ≡ v4 a b c d
ipv4_from_u32-word a b c d ha hb hc hd =
    let (p, q, r, s) = big_bytes a b c d ha hb hc hd in
    rw (u32_from_be-word a b c d ha hb hc hd, p, q, r, s) refl

u16_from_be-bytes : (hi lo : ℕ) → hi < 256 → lo < 256 → u16_from_be (hi + 256 * lo) ≡ hi * 256 + lo
unfolding u16_from_be
u16_from_be-bytes hi lo hh hl = omega arith

-- An end of a connection as the kernel writes it: the four bytes of the address and two of the port.
pub record End4 : Type 0 where
  pub a : ℕ
  pub b : ℕ
  pub c : ℕ
  pub d : ℕ
  pub hi : ℕ
  pub lo : ℕ

abbrev pub AreBytes : End4 → Type 0
AreBytes e = (e.a < 256) × (e.b < 256) × (e.c < 256) × (e.d < 256) × (e.hi < 256) × (e.lo < 256)

abbrev pub end_addr : End4 → SocketAddr
end_addr e = record { ip = v4 e.a e.b e.c e.d; port = e.hi * 256 + e.lo }

abbrev port_bytes : End4 → List ℕ
port_bytes e = e.hi ∷ e.lo ∷ []

-- Bytes that the reader takes no notice of, numbered from `i`.
abbrev pub unread : (ℕ → ℕ) → ℕ → ℕ → List ℕ
unread m i zero = []
unread m i (suc n) = m i ∷ unread m (i + 1) n

-- The four bytes of the address in a field of sixteen.
abbrev address_bytes : End4 → (ℕ → ℕ) → ℕ → List ℕ
address_bytes e m i = e.a ∷ e.b ∷ e.c ∷ e.d ∷ unread m i 12

abbrev unread_word : (ℕ → ℕ) → ℕ → ℕ
unread_word m i = m i + 256 * m (i + 1) + 65536 * m (i + 2) + 16777216 * m (i + 3)

-- The payload of 72 bytes that answers a dump for an IPv4 socket. Its timer and retransmissions, the
-- rest of its address fields, its interface and cookie, and its expiry and queues are those of `m`.
abbrev pub diag_v4_bytes : End4 → End4 → ℕ → ℕ → ℕ → (ℕ → ℕ) → List ℕ
diag_v4_bytes local remote state uid inode m =
    2
    ∷ state
    ∷ m 0
    ∷ m 1
    ∷ (port_bytes local
        ++ port_bytes remote
        ++ address_bytes local m 2
        ++ address_bytes remote m 14
        ++ unread m 26 24
        ++ le32 uid
        ++ le32 inode)

le32-u32 :
    (n : ℕ)
    → n < 2 ^ 32
    → n % 256 + 256 * (n / 256 % 256) + 65536 * (n / 65536 % 256) + 16777216 * (n / 16777216 % 256)
      ≡ n
le32-u32 n h = omega arith

socket_addr_from_diag-v4 :
    (e : End4) (w1 w2 w3 : ℕ)
    → AreBytes e
    → socket_addr_from_diag 2 (word e.a e.b e.c e.d, w1, w2, w3) (e.hi + 256 * e.lo)
      ≡ some (end_addr e)
unfolding socket_addr_from_diag
socket_addr_from_diag-v4 e w1 w2 w3 (ha, hb, hc, hd, hh, hl) =
    rw (ipv4_from_u32-word e.a e.b e.c e.d ha hb hc hd, u16_from_be-bytes e.hi e.lo hh hl) refl

-- The message of an IPv4 socket is read back, whatever its other fields hold: its two ends in
-- network order, its state by its name, its user and its inode, where these are bytes and 32-bit
-- numbers.
pub parse_inet_diag_message-v4 :
    (local remote : End4) (state uid inode : ℕ) (m : ℕ → ℕ) (protocol_kind : Protocol)
    → AreBytes local
    → AreBytes remote
    → uid < 2 ^ 32
    → inode < 2 ^ 32
    → parse_inet_diag_message (diag_v4_bytes local remote state uid inode m) protocol_kind
      ≡ ret (record {
        inode = inode;
        local_addr = end_addr local;
        remote_addr = end_addr remote;
        state = state_name state;
        uid = uid;
        protocol = protocol_kind;
      })
unfolding parse_inet_diag_message read_struct ok_or ◌>>=◌ word
parse_inet_diag_message-v4 local remote state uid inode m protocol_kind hl hr hu hi =
    rw
      (
        socket_addr_from_diag-v4 local (unread_word m 2) (unread_word m 6) (unread_word m 10) hl,
        socket_addr_from_diag-v4 remote (unread_word m 14) (unread_word m 18) (unread_word m 22) hr,
        tcp_state_to_str-state_name state,
        le32-u32 uid hu,
        le32-u32 inode hi,
      )
      refl

-- An IPv6 address is the sixteen bytes of its four words, in their order.
pub ipv6_from_be_words-bytes :
    (a0 a1 a2 a3 b0 b1 b2 b3 c0 c1 c2 c3 d0 d1 d2 d3 : ℕ)
    → All IsByte
        (a0 ∷ a1 ∷ a2 ∷ a3 ∷ b0 ∷ b1 ∷ b2 ∷ b3 ∷ c0 ∷ c1 ∷ c2 ∷ c3 ∷ d0 ∷ d1 ∷ d2 ∷ d3 ∷ [])
    → ipv6_from_be_words (
        u32x4_at
          (a0 ∷ a1 ∷ a2 ∷ a3 ∷ b0 ∷ b1 ∷ b2 ∷ b3 ∷ c0 ∷ c1 ∷ c2 ∷ c3 ∷ d0 ∷ d1 ∷ d2 ∷ d3 ∷ [])
          0)
      ≡ v6 (a0 ∷ a1 ∷ a2 ∷ a3 ∷ b0 ∷ b1 ∷ b2 ∷ b3 ∷ c0 ∷ c1 ∷ c2 ∷ c3 ∷ d0 ∷ d1 ∷ d2 ∷ d3 ∷ [])
unfolding ipv6_from_be_words word
ipv6_from_be_words-bytes a0 a1 a2 a3 b0 b1 b2 b3 c0 c1 c2 c3 d0 d1 d2 d3
      (
        h0,
        (
          h1,
          (
            h2,
            (h3, (h4, (h5, (h6, (h7, (h8, (h9, (h10, (h11, (h12, (h13, (h14, (h15, _))))))))))))),
          ),
        ),
      ) =
    rw
      (
        to_be_bytes-word a0 a1 a2 a3 h0 h1 h2 h3,
        to_be_bytes-word b0 b1 b2 b3 h4 h5 h6 h7,
        to_be_bytes-word c0 c1 c2 c3 h8 h9 h10 h11,
        to_be_bytes-word d0 d1 d2 d3 h12 h13 h14 h15,
      )
      refl
