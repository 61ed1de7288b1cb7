-- ===== src/Aggregator/Record.antt =====
-- One flow record: `process_record`, `update_connection_stats` and the fallback lookup of
-- crates/aggregator/src/lib.rs. The several readings of the clock in one call are one argument `now`.
pub mod Lookup
use netmon.Base.{
  ℕ, Bool, true, false, ◌&&◌, ◌||◌, List, [], ◌∷◌, Option, none, some, ◌==◌, ℕ_eq, if◌then◌else◌,
}
use netmon.Base.Word.{saturating_add}
use netmon.HashMap.{HashMap, upsert}
use netmon.Net.{SocketAddr, ip_eq}
use netmon.Capture.Types.{Direction, tx, rx, FlowKey, FlowRecord, protocol_eq}
use netmon.Resolver.Types.{ProcessInfo, ResolvedConnection}
use netmon.Resolver.Api.{ResolverApi}
use netmon.Flow.{flow_matches}
use netmon.Aggregator.Types.{
  ThreadKey, ConnectionKey, ConnectionStats, ThreadStats, Interface, new_stats,
  unknown_process_label, thread_key_eq, connection_key_eq,
}

abbrev pub owner_of : ResolvedConnection → ProcessInfo
owner_of conn = record {
  pid = conn.pid;
  tid = conn.tid;
  name = conn.process;
  thread_name = conn.thread_name;
  uid = conn.uid;
  username = conn.username;
}

unfoldable pub lookup_process_from_connections :
    FlowKey → List ResolvedConnection → Option ProcessInfo
lookup_process_from_connections flow [] = none
lookup_process_from_connections flow (conn ∷ rest) =
    if conn.protocol == flow.protocol && flow_matches conn.local_addr conn.remote_addr flow
    then some (owner_of conn)
    else lookup_process_from_connections flow rest

abbrev pub unknown_process : ProcessInfo
unknown_process = record {
  pid = 0;
  tid = 0;
  name = unknown_process_label;
  thread_name = unknown_process_label;
  uid = 0;
  username = unknown_process_label;
}

-- `a.or_else(|| b).unwrap_or(unknown)`
abbrev pub first_owner : Option ProcessInfo → Option ProcessInfo → ProcessInfo
first_owner (some info) b = info
first_owner none (some info) = info
first_owner none none = unknown_process

abbrev pub thread_key : ProcessInfo → ThreadKey
thread_key info = record { pid = info.pid; tid = info.tid }

-- The connection of a record, seen from this host.
unfoldable pub connection_key : FlowKey → ProcessInfo → Bool → ConnectionKey
connection_key flow info is_tx =
    if is_tx
    then record {
      pid = info.pid;
      tid = info.tid;
      local_addr = record { ip = flow.src_ip; port = flow.src_port };
      remote_addr = record { ip = flow.dst_ip; port = flow.dst_port };
      protocol = flow.protocol;
    }
    else record {
      pid = info.pid;
      tid = info.tid;
      local_addr = record { ip = flow.dst_ip; port = flow.dst_port };
      remote_addr = record { ip = flow.src_ip; port = flow.src_port };
      protocol = flow.protocol;
    }

unfoldable pub count_connection : ℕ → ℕ → Bool → ConnectionStats → ConnectionStats
count_connection now bytes is_tx c =
    if is_tx
    then record c { last_seen = now; tx_bytes = saturating_add c.tx_bytes bytes }
    else record c { last_seen = now; rx_bytes = saturating_add c.rx_bytes bytes }

unfoldable pub update_connection_stats :
    ℕ
    → FlowKey
    → ProcessInfo
    → ℕ
    → Bool
    → HashMap ConnectionKey ConnectionStats
    → HashMap ConnectionKey ConnectionStats
update_connection_stats now flow info bytes is_tx connections =
    upsert (connection_key flow info is_tx) (record { tx_bytes = 0; rx_bytes = 0; last_seen = now })
      (count_connection now bytes is_tx) connections

-- The entry of the record's thread.
unfoldable pub count_thread : ℕ → ProcessInfo → ℕ → Direction → ThreadStats → ThreadStats
count_thread now info bytes tx s = record s {
  info = info;
  last_seen = now;
  tx_bytes_total = saturating_add s.tx_bytes_total bytes;
  tx_current_second = saturating_add s.tx_current_second bytes;
}
count_thread now info bytes rx s = record s {
  info = info;
  last_seen = now;
  rx_bytes_total = saturating_add s.rx_bytes_total bytes;
  rx_current_second = saturating_add s.rx_current_second bytes;
}

unfoldable pub count_interface : ℕ → Direction → Interface → Interface
count_interface bytes tx f = record f {
  tx_total = saturating_add f.tx_total bytes;
  tx_current_second = saturating_add f.tx_current_second bytes;
}
count_interface bytes rx f = record f {
  rx_total = saturating_add f.rx_total bytes;
  rx_current_second = saturating_add f.rx_current_second bytes;
}

abbrev pub is_tx : Direction → Bool
is_tx tx = true
is_tx rx = false

-- The maps and counters that a record changes.
pub record Counters : Type 0 where
  pub threads : HashMap ThreadKey ThreadStats
  pub connections : HashMap ConnectionKey ConnectionStats
  pub interface : Interface

-- What a record does to the counters once its owner is known.
unfoldable pub count_record : ℕ → FlowRecord → ProcessInfo → Counters → Counters
count_record now r info c = record {
  threads =
      upsert (thread_key info) (new_stats now info) (count_thread now info r.byte_count r.direction)
        c.threads;
  connections =
      update_connection_stats now r.key info r.byte_count (is_tx r.direction) c.connections;
  interface = count_interface r.byte_count r.direction c.interface;
}

module _ (api : ResolverApi) where
  open api use {Resolver, resolve_flow_owner}

  unfoldable pub process_record :
      ℕ → FlowRecord → List ResolvedConnection → Resolver × Counters → Resolver × Counters
  process_record now r connection_cache (resolver, c) =
      let (owner, resolver') = resolve_flow_owner now r.key resolver in
      let info = first_owner owner (lookup_process_from_connections r.key connection_cache) in
      (resolver', count_record now r info c)
