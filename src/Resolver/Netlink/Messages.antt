-- ===== src/Resolver/Netlink/Messages.antt =====
-- The datagrams of a dump: `parse_response_messages`, `query_family_protocol` and `query_sockets`
-- of crates/resolver/src/netlink.rs. An error gives up the map filled so far, as `query_sockets` does.
use netmon.Base.{
  ℕ, zero, suc, ◌+◌, ◌-◌, Bool, true, false, not, List, [], ◌∷◌, leb, nat_eq, length, if◌then◌else◌,
  ℕ_eq,
}
use netmon.Base.Outcome.{Outcome, ret, err, panicked, ◌>>=◌, ◌>>◌, guard, ok_or, slice}
use netmon.HashMap.{insert}
use netmon.Capture.Types.{Protocol, tcp, udp}
use netmon.Resolver.Netlink.{
  nlmsg_align, parse_kernel_error, parse_inet_diag_message, Sockets, build_inet_diag_request,
}
use netmon.Resolver.Wire.{
  socket_open, send_failed, recv_failed, parse_error, kernel_error, NetlinkError, read_struct,
  nlmsghdr_size, nlmsghdr_at, sock_diag_by_family_type, nlmsg_done_type, nlmsg_error_type,
}

-- One message: the sockets with what it adds, and whether it ends the dump.
unfoldable pub handle_message :
    ℕ → List ℕ → Protocol → Sockets → Outcome NetlinkError (Bool × Sockets)
handle_message nlmsg_type payload protocol_kind sockets =
    if nat_eq nlmsg_type nlmsg_done_type
    then ret (true, sockets)
    else if nat_eq nlmsg_type nlmsg_error_type
    then (parse_kernel_error payload >>= λ errno. err (kernel_error errno))
    else if nat_eq nlmsg_type sock_diag_by_family_type
    then (parse_inet_diag_message payload protocol_kind >>= λ entry.
        ret (false, insert entry.inode entry sockets))
    else ret (false, sockets)

-- The message at an offset, with the length that it claims.
unfoldable pub next_message : List ℕ → ℕ → Outcome NetlinkError (ℕ × ℕ × List ℕ)
next_message bytes offset = do
  header ← ok_or (read_struct nlmsghdr_size nlmsghdr_at bytes offset) parse_error
  guard (not (nat_eq header.nlmsg_len 0)) parse_error
  guard (leb (offset + header.nlmsg_len) (length bytes)) parse_error
  payload ←
      slice bytes (offset + nlmsghdr_size)
        (offset + nlmsghdr_size + (header.nlmsg_len - nlmsghdr_size))
  ret (header.nlmsg_len, header.nlmsg_type, payload)

-- The loop, which moves on by at least four bytes a round. Running out of fuel is `panicked`.
unfoldable pub parse_messages :
    ℕ → List ℕ → ℕ → Protocol → Sockets → Outcome NetlinkError (Bool × Sockets)
parse_messages zero bytes offset protocol_kind sockets = panicked
parse_messages (suc fuel) bytes offset protocol_kind sockets =
    let round = next_message bytes offset >>= λ m.
    (handle_message m.1 m.2 protocol_kind sockets >>= λ handled.
    (let rest = parse_messages fuel bytes (offset + nlmsg_align m.0) protocol_kind handled.1 in
      if handled.0 then ret (true, handled.1) else rest)) in
    if leb (offset + nlmsghdr_size) (length bytes) then round else ret (false, sockets)

unfoldable pub parse_response_messages :
    List ℕ → Protocol → Sockets → Outcome NetlinkError (Bool × Sockets)
parse_response_messages bytes protocol_kind sockets =
    parse_messages (suc (length bytes)) bytes 0 protocol_kind sockets

-- The netlink socket: whether it opens, whether a request is sent, and the datagrams received in
-- answer to it before a receive fails.
pub record Kernel : Type 0 where
  pub opens : Bool
  pub sends : List ℕ → Bool
  pub answers : List ℕ → List (List ℕ)

-- The receive loop of `query_family_protocol`.
unfoldable pub receive_all : List (List ℕ) → Protocol → Sockets → Outcome NetlinkError Sockets
receive_all [] protocol_kind sockets = err recv_failed
receive_all (received ∷ rest) protocol_kind sockets =
    guard (not (nat_eq (length received) 0)) parse_error
    >> (parse_response_messages received protocol_kind sockets >>= λ parsed.
        (let more = receive_all rest protocol_kind parsed.1 in
          if parsed.0 then ret parsed.1 else more))

unfoldable pub query_family_protocol :
    Kernel → ℕ → ℕ → Protocol → Sockets → Outcome NetlinkError Sockets
query_family_protocol kernel family protocol protocol_kind sockets =
    let request = build_inet_diag_request family protocol in
    guard (kernel.sends request) send_failed
    >> receive_all (kernel.answers request) protocol_kind sockets

unfoldable pub query_sockets : Kernel → Outcome NetlinkError Sockets
query_sockets kernel = do
  guard kernel.opens socket_open
  v4_tcp ← query_family_protocol kernel 2 6 tcp []
  v4_udp ← query_family_protocol kernel 2 17 udp v4_tcp
  v6_tcp ← query_family_protocol kernel 10 6 tcp v4_udp
  query_family_protocol kernel 10 17 udp v6_tcp
