-- ===== src/Aggregator/Loop.antt =====
-- The main loop of crates/aggregator/src/lib.rs: `run_aggregator_loop` with `drain_flow_channel` and
-- `refresh_connection_cache_if_due`. A turn is given the clock, the records that the channel holds
-- (none where the receive times out or the sender is gone), the blocked process ids and the wall
-- clock. A turn is one iteration of the `while`; the sleep at its end is the caller's choice of clock.
pub mod Kept
use netmon.Base.{ℕ, ◌-◌, Bool, List, [], ◌∷◌, replicate, if◌then◌else◌, ltb}
use netmon.Capture.Types.{FlowRecord}
use netmon.Resolver.Types.{ResolvedConnection}
use netmon.Resolver.Api.{ResolverApi}
use netmon.Aggregator.Types.{
  Interface, ProcessRow, InterfaceStats, history_slots, resolver_scan_interval,
}
use netmon.Aggregator.Record.{Counters, process_record}
use netmon.Aggregator.Threads.{mark_exited_threads, evict_stale_threads, prune_connection_stats}
use netmon.Aggregator.Rotation.{rotate_histories_if_due}
use netmon.Aggregator.Csv.{Csv, append_history_csv}
use netmon.Aggregator.Publish.{publish_rows, publish_interface}

-- The local variables of the loop.
pub record Locals (Resolver : Type 0) : Type 0 where
  pub resolver : Resolver
  pub counters : Counters
  pub last_rotation : ℕ
  pub last_proc_scan : ℕ
  pub connection_cache : List ResolvedConnection

-- What other threads read: the shared snapshots, and the CSV file with the session's rows.
pub record Published : Type 0 where
  pub rows : List ProcessRow
  pub interface : InterfaceStats
  pub csv : Csv

-- What a turn reads of its surroundings. `history_csv` is absent where the file could not be opened.
pub record Input : Type 0 where
  pub now : ℕ
  pub received : List FlowRecord
  pub blocked : List ℕ
  pub timestamp : ℕ
  pub has_history_csv : Bool

unfoldable pub new_interface : Interface
new_interface = record {
  tx_total = 0;
  rx_total = 0;
  tx_current_second = 0;
  rx_current_second = 0;
  tx_history = replicate history_slots 0;
  rx_history = replicate history_slots 0;
  peak_bw = 0;
}

-- The locals before the first turn; the clock is past its first second.
unfoldable pub start_locals : {R : Type 0} → ℕ → R → Locals R
unfolding new_interface
start_locals now resolver = record {
  resolver = resolver;
  counters = record { threads = []; connections = []; interface = new_interface };
  last_rotation = now;
  last_proc_scan = now - 1000;
  connection_cache = [];
}

module _ (api : ResolverApi) where
  open api use {Resolver, refresh_if_needed, list_connections}

  unfoldable pub refresh_connection_cache_if_due : ℕ → Locals Resolver → Locals Resolver
  refresh_connection_cache_if_due now l =
      if ltb (now - l.last_proc_scan) resolver_scan_interval
      then l
      else (let (connections, r) = list_connections now (refresh_if_needed now l.resolver) in
          record l { resolver = r; connection_cache = connections; last_proc_scan = now })

  unfoldable pub drain_flow_channel :
      ℕ → List FlowRecord → List ResolvedConnection → Resolver × Counters → Resolver × Counters
  drain_flow_channel now [] connection_cache rc = rc
  drain_flow_channel now (r ∷ rest) connection_cache rc =
      drain_flow_channel now rest connection_cache (process_record api now r connection_cache rc)

  -- The part of a turn before the histories are rotated.
  unfoldable pub count_received : ℕ → List FlowRecord → Locals Resolver → Locals Resolver
  count_received now received l =
      let l1 = refresh_connection_cache_if_due now l in
      let (r2, c2) =
        drain_flow_channel now received l1.connection_cache (l1.resolver, l1.counters) in
      let (threads3, r3) = mark_exited_threads api now c2.threads r2 in
      let threads4 = evict_stale_threads now threads3 in
      record l1 {
        resolver = r3;
        counters = record {
          threads = threads4;
          connections = prune_connection_stats now threads4 c2.connections;
          interface = c2.interface;
        };
      }

  -- One iteration of the loop.
  unfoldable pub turn : Input → Locals Resolver × Published → Locals Resolver × Published
  turn i (l, p) =
      let l4 = count_received i.now i.received l in
      let (c5, last_rotation, rotated) =
        rotate_histories_if_due i.now l4.counters l4.last_rotation in
      (
        record l4 { counters = c5; last_rotation = last_rotation },
        record {
          rows = publish_rows i.blocked c5.threads l4.connection_cache c5.connections;
          interface = publish_interface c5.interface;
          csv =
              if rotated
              then (if i.has_history_csv
                  then append_history_csv i.timestamp c5.threads p.csv
                  else p.csv)
              else p.csv;
        },
      )

  -- `while running { ... }`, for as many turns as `running` holds.
  unfoldable pub run_aggregator_loop :
      List Input → Locals Resolver × Published → Locals Resolver × Published
  run_aggregator_loop [] s = s
  run_aggregator_loop (i ∷ rest) s = run_aggregator_loop rest (turn i s)
