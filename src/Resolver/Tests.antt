-- ===== src/Resolver/Tests.antt =====
-- The resolver crate on concrete messages and files.
use netmon.Base.{
  ℕ, ◌≡◌, ◌≢◌, refl, true, false, List, [], ◌∷◌, ◌++◌, none, some, arith, All, ℕ_discrete,
}
use mathlib.Core.Bool.{decide}
use netmon.Base.Text.{text}
use netmon.Base.Hex.{hex}
use netmon.Base.Outcome.{ret, panicked}
use netmon.HashMap.{get}
use netmon.Net.{v4, v6, IpAddr-discrete}
use netmon.Capture.Types.{tcp, FlowKey, Protocol-discrete}
use netmon.Resolver.Types.{ProcessInfo, SocketEntry}
use netmon.Resolver.Netlink.{
  parse_inet_diag_message, socket_addr_from_diag, ipv6_from_be_words, tcp_state_to_str, u16_from_be,
  Sockets,
}
use netmon.Resolver.Wire.{u32x4_at}
use netmon.Resolver.Netlink.Messages.{parse_response_messages}
use netmon.Resolver.Netlink.Addresses.{
  End4, end_addr, diag_v4_bytes, parse_inet_diag_message-v4, ipv6_from_be_words-bytes,
}
use netmon.Resolver.Netlink.Dump.{parse_response_messages-ne-panicked}
use netmon.Resolver.Netlink.Answer.{IsAnswer, dump_bytes, insert_all, parse_response_messages-dump}
use netmon.Resolver.ProcNet.{parse_proc_socket_addr}
use netmon.Resolver.ProcNet.Endpoint.{parse_proc_socket_addr-netlink}
use netmon.Resolver.PidMap.{InodeMap}
use netmon.Resolver.Cache.{
  refreshed, Host, ResolverCache, resolve_flow_owner, process_by_pid, find_owner, refresh_if_needed,
}
use netmon.Resolver.Cache.Owners.{AreSameOwner, first_of_flow, find_owner-AreSameOwner}
use netmon.Resolver.Cache.Laws.{resolve_flow_owner-known}
use netmon.Flow.{flow_matches}

abbrev local : End4
local = record { a = 10; b = 0; c = 0; d = 2; hi = 200; lo = 1 }

abbrev remote : End4
remote = record { a = 8; b = 8; c = 8; d = 8; hi = 1; lo = 187 }

abbrev https : SocketEntry
https = record {
  inode = 70000;
  local_addr = end_addr local;
  remote_addr = end_addr remote;
  state = tcp_state_to_str 1;
  uid = 1000;
  protocol = tcp;
}

-- Every other byte of the message is 7.
abbrev cookie : ℕ → ℕ
cookie i = 7

parse_inet_diag_message-v4_example :
    parse_inet_diag_message (diag_v4_bytes local remote 1 1000 70000 cookie) tcp ≡ ret https
unfolding tcp_state_to_str
parse_inet_diag_message-v4_example =
    parse_inet_diag_message-v4 local remote 1 1000 70000 cookie tcp (ground arith) (ground arith)
      (omega arith) (omega arith)

ipv6_from_be_words-bytes_example :
    ipv6_from_be_words
      (u32x4_at (32 ∷ 1 ∷ 13 ∷ 184 ∷ 0 ∷ 0 ∷ 0 ∷ 0 ∷ 0 ∷ 0 ∷ 0 ∷ 0 ∷ 0 ∷ 0 ∷ 0 ∷ 1 ∷ []) 0)
    ≡ v6 (32 ∷ 1 ∷ 13 ∷ 184 ∷ 0 ∷ 0 ∷ 0 ∷ 0 ∷ 0 ∷ 0 ∷ 0 ∷ 0 ∷ 0 ∷ 0 ∷ 0 ∷ 1 ∷ [])
ipv6_from_be_words-bytes_example =
    ipv6_from_be_words-bytes 32 1 13 184 0 0 0 0 0 0 0 0 0 0 0 1 (ground arith)

parse_response_messages-ne-panicked_example :
    parse_response_messages (5 ∷ 0 ∷ 0 ∷ []) tcp [] ≢ panicked
parse_response_messages-ne-panicked_example =
    parse_response_messages-ne-panicked (5 ∷ 0 ∷ 0 ∷ []) tcp []

abbrev answers : List (List ℕ × SocketEntry)
answers = (diag_v4_bytes local remote 1 1000 70000 cookie, https) ∷ []

answers-IsAnswer : All (IsAnswer tcp) answers
answers-IsAnswer = ((refl, parse_inet_diag_message-v4_example), tt)

parse_response_messages-dump_example :
    parse_response_messages (dump_bytes 9 answers) tcp [] ≡ ret (true, insert_all answers [])
parse_response_messages-dump_example =
    parse_response_messages-dump 9 answers tcp [] answers-IsAnswer

-- 10.0.0.2:8080
parse_proc_socket_addr-netlink_example :
    parse_proc_socket_addr (hex 8 33554442 [] ++ (58 ∷ hex 4 (u16_from_be 36895) [])) true
    ≡ socket_addr_from_diag 2 (33554442, 0, 0, 0) 36895
parse_proc_socket_addr-netlink_example =
    parse_proc_socket_addr-netlink 33554442 36895 0 0 0 (omega arith) (omega arith)

proc_text : hex 8 33554442 [] ++ (58 ∷ hex 4 (u16_from_be 36895) []) ≡ text "0200000A:1F90"
unfolding hex u16_from_be
proc_text = refl

abbrev owners : InodeMap
owners =
    (
      70000,
      record {
        pid = 42;
        tid = 43;
        process_name = text "curl";
        thread_name = text "worker";
        uid = 1000;
      },
    )
    ∷ []

abbrev sockets : Sockets
sockets = (70000, https) ∷ []

-- A host whose sources fail, and a cache filled before.
abbrev pub silent_host : Host
silent_host = record {
  kernel = λ now. record { opens = false; sends = λ request. false; answers = λ request. [] };
  read_to_string = λ now path. none;
  proc = λ now. none;
}

abbrev pub curl : ProcessInfo
curl = record {
  pid = 42;
  tid = 43;
  name = text "curl";
  thread_name = text "worker";
  uid = 1000;
  username = text "me";
}

abbrev pub filled_cache : ResolverCache
filled_cache = record {
  uid_map = [];
  inode_to_process = (70000, curl) ∷ [];
  socket_entries = sockets;
  connections = [];
  last_refresh = 5000;
}

-- The flow of the socket, seen from the other end.
abbrev pub answer_flow : FlowKey
answer_flow = record {
  src_ip = v4 8 8 8 8;
  dst_ip = v4 10 0 0 2;
  src_port = 443;
  dst_port = 51201;
  protocol = tcp;
}

-- What a refresh makes of the socket, which process 42 holds.
abbrev refilled : ResolverCache
refilled = refreshed (some sockets) owners 6000 filled_cache

find_owner-AreSameOwner_example :
    AreSameOwner owners
      (find_owner answer_flow refilled.socket_entries refilled.inode_to_process)
      (first_of_flow answer_flow refilled.connections)
find_owner-AreSameOwner_example =
    find_owner-AreSameOwner sockets owners 6000 filled_cache answer_flow (refl, tt)

pub answer_owner : (resolve_flow_owner silent_host 5500 answer_flow filled_cache).0 ≡ some curl
unfolding resolve_flow_owner refresh_if_needed find_owner flow_matches decide Protocol-discrete
    IpAddr-discrete ℕ_discrete get
answer_owner = refl

resolve_flow_owner-known_example :
    ((process_by_pid silent_host 5500 42
        (resolve_flow_owner silent_host 5500 answer_flow filled_cache).1).0
      ≢ none)
    × ((process_by_pid silent_host 5500 7
          (resolve_flow_owner silent_host 5500 answer_flow filled_cache).1).1
        ≡ (resolve_flow_owner silent_host 5500 answer_flow filled_cache).1)
resolve_flow_owner-known_example =
    resolve_flow_owner-known silent_host 5500 answer_flow filled_cache curl 7 answer_owner
