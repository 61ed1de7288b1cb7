-- ===== src/Resolver/Netlink.antt =====
-- Socket enumeration over netlink: crates/resolver/src/netlink.rs. The host is little-endian with
-- 64-bit `usize`, on which the offsets below cannot overflow. The netlink socket is a parameter: what
-- opening and sending give, and the datagrams that `recv` returns before it first fails.
pub mod Messages
pub mod Dump
pub mod Answer
pub mod States
pub mod Addresses
use netmon.Base.{
  ℕ, zero, suc, ◌+◌, ◌-◌, ◌*◌, ◌/◌, ◌%◌, ◌^◌, Bool, true, false, List, [], ◌∷◌, ◌++◌, Option, none,
  some, ltb, leb, nat_eq, get_or, length, if◌then◌else◌,
}
use netmon.Base.Text.{Text, text}
use netmon.Base.Outcome.{Outcome, ret, err, panicked, ◌>>=◌, ◌>>◌, guard, ok_or, slice}
use netmon.HashMap.{HashMap, insert}
use netmon.Net.{IpAddr, v4, v6, SocketAddr}
use netmon.Capture.Types.{Protocol, tcp, udp}
use netmon.Resolver.Types.{SocketEntry}
use netmon.Resolver.Wire.{
  parse_error, NetlinkError, u32_at, read_struct, diag_msg_size, diag_msg_at, error_message_size,
  nlmsghdr_bytes, diag_request_bytes, sock_diag_by_family_type,
}

-- The request is never empty, so the source's check of that is dropped.
unfoldable pub build_inet_diag_request : ℕ → ℕ → List ℕ
build_inet_diag_request family protocol =
    nlmsghdr_bytes (record {
      nlmsg_len = 16 + 56;
      nlmsg_type = sock_diag_by_family_type;
      nlmsg_flags = 0x0301;
      nlmsg_seq = 1;
      nlmsg_pid = 0;
    })
    ++ diag_request_bytes (record {
      family = family;
      protocol = protocol;
      ext = 0;
      pad = 0;
      states = 0xffff_ffff;
      id = record {
        sport = 0;
        dport = 0;
        src = (0, 0, 0, 0);
        dst = (0, 0, 0, 0);
        interface = 0;
        cookie = (0, 0);
      };
    })

-- `(len + 3) & !3`
unfoldable pub nlmsg_align : ℕ → ℕ
nlmsg_align len = (len + 3) / 4 * 4

-- `u16::from_be` and `u32::from_be` swap the bytes.
unfoldable pub u16_from_be : ℕ → ℕ
u16_from_be n = n % 256 * 256 + n / 256 % 256

unfoldable pub u32_from_be : ℕ → ℕ
u32_from_be n =
    n % 256 * 16777216 + n / 256 % 256 * 65536 + n / 65536 % 256 * 256 + n / 16777216 % 256

-- `to_be_bytes` of a u32
unfoldable pub to_be_bytes : ℕ → List ℕ
to_be_bytes n = n / 16777216 % 256 ∷ n / 65536 % 256 ∷ n / 256 % 256 ∷ n % 256 ∷ []

abbrev pub ipv4_from_u32 : ℕ → IpAddr
ipv4_from_u32 n = v4 (n / 16777216 % 256) (n / 65536 % 256) (n / 256 % 256) (n % 256)

unfoldable pub ipv6_from_be_words : ℕ × ℕ × ℕ × ℕ → IpAddr
ipv6_from_be_words (a, b, c, d) = v6 (
    to_be_bytes (u32_from_be a)
    ++ to_be_bytes (u32_from_be b)
    ++ to_be_bytes (u32_from_be c)
    ++ to_be_bytes (u32_from_be d))

unfoldable pub socket_addr_from_diag : ℕ → ℕ × ℕ × ℕ × ℕ → ℕ → Option SocketAddr
socket_addr_from_diag family words raw_port =
    if nat_eq family 2
    then some (record { ip = ipv4_from_u32 (u32_from_be words.0); port = u16_from_be raw_port })
    else if nat_eq family 10
    then some (record { ip = ipv6_from_be_words words; port = u16_from_be raw_port })
    else none

unfoldable pub tcp_state_to_str : ℕ → Text
tcp_state_to_str state =
    if nat_eq state 1
    then text "ESTABLISHED"
    else if nat_eq state 2
    then text "SYN_SENT"
    else if nat_eq state 3
    then text "SYN_RECV"
    else if nat_eq state 4
    then text "FIN_WAIT1"
    else if nat_eq state 5
    then text "FIN_WAIT2"
    else if nat_eq state 6
    then text "TIME_WAIT"
    else if nat_eq state 7
    then text "CLOSE"
    else if nat_eq state 8
    then text "CLOSE_WAIT"
    else if nat_eq state 9
    then text "LAST_ACK"
    else if nat_eq state 10
    then text "LISTEN"
    else if nat_eq state 11
    then text "CLOSING"
    else text "UNKNOWN"

-- The errno, an `i32` as its 32 bits; the negation wraps.
unfoldable pub parse_kernel_error : List ℕ → Outcome NetlinkError ℕ
parse_kernel_error payload = do
  error ← ok_or (read_struct error_message_size u32_at payload 0) parse_error
  ret ((2 ^ 32 - error) % 2 ^ 32)

unfoldable pub parse_inet_diag_message : List ℕ → Protocol → Outcome NetlinkError SocketEntry
parse_inet_diag_message payload protocol_kind = do
  m ← ok_or (read_struct diag_msg_size diag_msg_at payload 0) parse_error
  local ← ok_or (socket_addr_from_diag m.family m.id.src m.id.sport) parse_error
  remote ← ok_or (socket_addr_from_diag m.family m.id.dst m.id.dport) parse_error
  ret (record {
    inode = m.inode;
    local_addr = local;
    remote_addr = remote;
    state = tcp_state_to_str m.state;
    uid = m.uid;
    protocol = protocol_kind;
  })

abbrev pub Sockets : Type 0
Sockets = HashMap ℕ SocketEntry
