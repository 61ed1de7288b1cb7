-- ===== src/Resolver/Wire.antt =====
-- The structs of sock_diag in memory, as crates/resolver/src/netlink.rs reads and writes them.
use netmon.Base.{
  ℕ, ◌+◌, ◌*◌, ◌/◌, ◌%◌, List, [], ◌∷◌, ◌++◌, Option, none, some, ltb, get_or, length,
  if◌then◌else◌,
}

pub data NetlinkError : Type 0 where
  socket_open send_failed recv_failed parse_error : NetlinkError
  kernel_error : ℕ → NetlinkError

pub record InetDiagSockIdRaw : Type 0 where
  pub sport : ℕ
  pub dport : ℕ
  pub src : ℕ × ℕ × ℕ × ℕ
  pub dst : ℕ × ℕ × ℕ × ℕ
  pub interface : ℕ
  pub cookie : ℕ × ℕ

pub record InetDiagReqV2Raw : Type 0 where
  pub family : ℕ
  pub protocol : ℕ
  pub ext : ℕ
  pub pad : ℕ
  pub states : ℕ
  pub id : InetDiagSockIdRaw

pub record InetDiagMsgRaw : Type 0 where
  pub family : ℕ
  pub state : ℕ
  pub timer : ℕ
  pub retrans : ℕ
  pub id : InetDiagSockIdRaw
  pub expires : ℕ
  pub rqueue : ℕ
  pub wqueue : ℕ
  pub uid : ℕ
  pub inode : ℕ

pub record RawNlmsghdr : Type 0 where
  pub nlmsg_len : ℕ
  pub nlmsg_type : ℕ
  pub nlmsg_flags : ℕ
  pub nlmsg_seq : ℕ
  pub nlmsg_pid : ℕ

-- Fields of a struct in memory.
abbrev pub u16_at : List ℕ → ℕ → ℕ
u16_at bytes i = get_or bytes i 0 + 256 * get_or bytes (i + 1) 0

abbrev pub u32_at : List ℕ → ℕ → ℕ
u32_at bytes i =
    get_or bytes i 0
    + 256 * get_or bytes (i + 1) 0
    + 65536 * get_or bytes (i + 2) 0
    + 16777216 * get_or bytes (i + 3) 0

abbrev pub u32x4_at : List ℕ → ℕ → ℕ × ℕ × ℕ × ℕ
u32x4_at bytes i =
    (u32_at bytes i, u32_at bytes (i + 4), u32_at bytes (i + 8), u32_at bytes (i + 12))

-- `read_struct`: none where the struct of this size does not fit.
unfoldable pub read_struct : {A : Type 0} → ℕ → (List ℕ → ℕ → A) → List ℕ → ℕ → Option A
read_struct size field_values bytes offset =
    if ltb (length bytes) (offset + size) then none else some (field_values bytes offset)

abbrev pub nlmsghdr_size : ℕ
nlmsghdr_size = 16

abbrev pub nlmsghdr_at : List ℕ → ℕ → RawNlmsghdr
nlmsghdr_at bytes i = record {
  nlmsg_len = u32_at bytes i;
  nlmsg_type = u16_at bytes (i + 4);
  nlmsg_flags = u16_at bytes (i + 6);
  nlmsg_seq = u32_at bytes (i + 8);
  nlmsg_pid = u32_at bytes (i + 12);
}

abbrev pub sock_id_at : List ℕ → ℕ → InetDiagSockIdRaw
sock_id_at bytes i = record {
  sport = u16_at bytes i;
  dport = u16_at bytes (i + 2);
  src = u32x4_at bytes (i + 4);
  dst = u32x4_at bytes (i + 20);
  interface = u32_at bytes (i + 36);
  cookie = (u32_at bytes (i + 40), u32_at bytes (i + 44));
}

abbrev pub diag_msg_size : ℕ
diag_msg_size = 72

abbrev pub diag_msg_at : List ℕ → ℕ → InetDiagMsgRaw
diag_msg_at bytes i = record {
  family = get_or bytes i 0;
  state = get_or bytes (i + 1) 0;
  timer = get_or bytes (i + 2) 0;
  retrans = get_or bytes (i + 3) 0;
  id = sock_id_at bytes (i + 4);
  expires = u32_at bytes (i + 52);
  rqueue = u32_at bytes (i + 56);
  wqueue = u32_at bytes (i + 60);
  uid = u32_at bytes (i + 64);
  inode = u32_at bytes (i + 68);
}

-- `NetlinkErrorMessageRaw`: an `i32` as its 32 bits, then the header of the request.
abbrev pub error_message_size : ℕ
error_message_size = 20

abbrev pub le16 : ℕ → List ℕ
le16 n = n % 256 ∷ n / 256 % 256 ∷ []

abbrev pub le32 : ℕ → List ℕ
le32 n = n % 256 ∷ n / 256 % 256 ∷ n / 65536 % 256 ∷ n / 16777216 % 256 ∷ []

abbrev pub le32x4 : ℕ × ℕ × ℕ × ℕ → List ℕ
le32x4 (a, b, c, d) = le32 a ++ le32 b ++ le32 c ++ le32 d

-- `append_struct_bytes` of each struct
abbrev pub nlmsghdr_bytes : RawNlmsghdr → List ℕ
nlmsghdr_bytes h =
    le32 h.nlmsg_len
    ++ le16 h.nlmsg_type
    ++ le16 h.nlmsg_flags
    ++ le32 h.nlmsg_seq
    ++ le32 h.nlmsg_pid

abbrev pub sock_id_bytes : InetDiagSockIdRaw → List ℕ
sock_id_bytes id =
    le16 id.sport
    ++ le16 id.dport
    ++ le32x4 id.src
    ++ le32x4 id.dst
    ++ le32 id.interface
    ++ le32 id.cookie.0
    ++ le32 id.cookie.1

abbrev pub diag_request_bytes : InetDiagReqV2Raw → List ℕ
diag_request_bytes r = r.family ∷ r.protocol ∷ r.ext ∷ r.pad ∷ (le32 r.states ++ sock_id_bytes r.id)

-- The type of requests and of the answers with sockets.
abbrev pub sock_diag_by_family_type : ℕ
sock_diag_by_family_type = 20

abbrev pub nlmsg_done_type : ℕ
nlmsg_done_type = 3

abbrev pub nlmsg_error_type : ℕ
nlmsg_error_type = 2
