-- ===== src/Flow.antt =====
-- The match of a flow with the ends of a socket, which crates/resolver/src/lib.rs and
-- crates/aggregator/src/lib.rs both write out.
use netmon.Base.{Bool, ◌&&◌, ◌||◌, ◌==◌, ℕ_eq}
use netmon.Net.{SocketAddr, ip_eq}
use netmon.Capture.Types.{FlowKey}

-- The two ends of a socket are those of a flow, in this order.
abbrev pub ends_match : SocketAddr → SocketAddr → FlowKey → Bool
ends_match local remote flow =
    local.ip == flow.src_ip
    && (local.port == flow.src_port && (remote.ip == flow.dst_ip && remote.port == flow.dst_port))

-- The same flow seen from the other end.
abbrev pub reversed : FlowKey → FlowKey
reversed flow = record flow {
  src_ip = flow.dst_ip;
  dst_ip = flow.src_ip;
  src_port = flow.dst_port;
  dst_port = flow.src_port;
}

-- `forward_match || reverse_match`
unfoldable pub flow_matches : SocketAddr → SocketAddr → FlowKey → Bool
flow_matches local remote flow =
    ends_match local remote flow || ends_match local remote (reversed flow)
