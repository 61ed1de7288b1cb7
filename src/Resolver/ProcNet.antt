-- ===== src/Resolver/ProcNet.antt =====
-- The fallback of crates/resolver/src/proc_fallback.rs, which reads the files of `/proc/net`. A file
-- is its text, or none where it cannot be read. The files are ASCII.
pub mod Endpoint
use mathlib.Core.Option.{bind}
use netmon.Base.{
  ℕ, zero, suc, ◌+◌, ◌/◌, ◌%◌, Bool, true, false, List, [], ◌∷◌, ◌++◌, Option, none, some, ltb,
  nat_eq, get_or, get_elem?, take, drop, length, ◌==◌, if◌then◌else◌, ℕ_eq, not,
}
use netmon.Base.Text.{Text, text, split_on, split_whitespace, lines}
use netmon.Base.Word.{u64_max}
use netmon.Base.Numbers.{from_str_radix}
use netmon.Base.Outcome.{Outcome, ret, err, panicked, ◌>>=◌, ◌>>◌, guard, ok_or}
use netmon.HashMap.{insert}
use netmon.Net.{IpAddr, v4, v6, SocketAddr}
use netmon.Capture.Types.{Protocol, tcp, udp, protocol_eq}
use netmon.Resolver.Types.{SocketEntry}
use netmon.Resolver.Netlink.{Sockets, tcp_state_to_str}

pub data FallbackError : Type 0 where
  file_open : Text → FallbackError
  parse_line : Text → Text → FallbackError

-- `raw.to_le_bytes()`
abbrev pub to_le_bytes : ℕ → List ℕ
to_le_bytes raw = raw % 256 ∷ raw / 256 % 256 ∷ raw / 65536 % 256 ∷ raw / 16777216 % 256 ∷ []

abbrev pub u32_from_hex : Text → Option ℕ
u32_from_hex s = from_str_radix 0xffff_ffff 16 s

-- Four words of eight digits each.
unfoldable pub ipv6_words : ℕ → Text → Option (List ℕ)
ipv6_words zero ip_hex = some []
ipv6_words (suc n) ip_hex =
    bind (u32_from_hex (take 8 ip_hex))
      λ raw_word. bind (ipv6_words n (drop 8 ip_hex)) λ rest. some (to_le_bytes raw_word ++ rest)

unfoldable pub ip_from_hex : Text → Bool → Option IpAddr
ip_from_hex ip_hex true =
    if nat_eq (length ip_hex) 8
    then bind (u32_from_hex ip_hex)
        (λ raw. some (v4 (raw % 256) (raw / 256 % 256) (raw / 65536 % 256) (raw / 16777216 % 256)))
    else none
ip_from_hex ip_hex false =
    if nat_eq (length ip_hex) 32
    then bind (ipv6_words 4 ip_hex) (λ bytes. some (v6 bytes))
    else none

unfoldable pub parse_proc_socket_addr : Text → Bool → Option SocketAddr
parse_proc_socket_addr endpoint_text is_ipv4 =
    let parts = split_on 58 endpoint_text in
    bind (get_elem? parts 0) λ ip_hex. bind (get_elem? parts 1) λ port_hex.
      bind (from_str_radix 0xffff 16 port_hex)
        λ port. bind (ip_from_hex ip_hex is_ipv4) λ ip. some (record { ip = ip; port = port })

abbrev state_label : Option ℕ → Text
state_label none = text "UNKNOWN"
state_label (some state_value) = tcp_state_to_str state_value

-- The labels are those of `tcp_state_to_str`, which this file writes out again.
unfoldable pub parse_tcp_state : Text → Protocol → Text
parse_tcp_state state_hex protocol =
    if not (protocol == tcp) then text "UNCONN" else state_label (from_str_radix 255 16 state_hex)

-- One line of a file. After the test of their number the columns below are there.
unfoldable pub read_line : Text → Protocol → Bool → Text → Sockets → Outcome FallbackError Sockets
read_line file_path protocol is_ipv4 line sockets = do
  let columns = split_whitespace line
  guard (not (ltb (length columns) 10)) (parse_line file_path line)
  local ← ok_or (parse_proc_socket_addr (get_or columns 1 []) is_ipv4) (parse_line file_path line)
  remote ← ok_or (parse_proc_socket_addr (get_or columns 2 []) is_ipv4) (parse_line file_path line)
  inode ← ok_or (from_str_radix u64_max 10 (get_or columns 9 [])) (parse_line file_path line)
  ret (
      insert inode
        (record {
          inode = inode;
          local_addr = local;
          remote_addr = remote;
          state = parse_tcp_state (get_or columns 3 []) protocol;
          uid = 0;
          protocol = protocol;
        })
        sockets)

unfoldable pub read_lines :
    Text → Protocol → Bool → List Text → Sockets → Outcome FallbackError Sockets
read_lines file_path protocol is_ipv4 [] sockets = ret sockets
read_lines file_path protocol is_ipv4 (line ∷ rest) sockets =
    read_line file_path protocol is_ipv4 line sockets >>= λ sockets'.
    read_lines file_path protocol is_ipv4 rest sockets'

-- The first line is the header.
unfoldable pub read_proc_file :
    Option Text → Text → Protocol → Bool → Sockets → Outcome FallbackError Sockets
read_proc_file content file_path protocol is_ipv4 sockets =
    ok_or content (file_open file_path) >>= λ c.
    read_lines file_path protocol is_ipv4 (drop 1 (lines c)) sockets

-- The four files, by path.
unfoldable pub read_proc_net : (Text → Option Text) → Outcome FallbackError Sockets
read_proc_net read_to_string = do
  tcp4 ← read_proc_file (read_to_string (text "/proc/net/tcp")) (text "/proc/net/tcp") tcp true []
  tcp6 ←
      read_proc_file (read_to_string (text "/proc/net/tcp6")) (text "/proc/net/tcp6") tcp false tcp4
  udp4 ← read_proc_file (read_to_string (text "/proc/net/udp")) (text "/proc/net/udp") udp true tcp6
  read_proc_file (read_to_string (text "/proc/net/udp6")) (text "/proc/net/udp6") udp false udp4
