-- ===== src/Aggregator/Tests.antt =====
-- The aggregator crate on a concrete resolver and concrete records.
use netmon.Base.{
  ◌+◌, ◌≡◌, refl, true, List, [], ◌∷◌, ◌++◌, arith, replicate, get_or, ◌≤◌, ℕ_discrete,
}
use mathlib.Core.List.{Perm}
use mathlib.Core.Bool.{decide}
use netmon.Base.Text.{text, split_on}
use netmon.HashMap.{HashMap, get, DistinctKeys}
use netmon.Capture.Types.{rx, tcp, FlowRecord}
use netmon.Resolver.Types.{ResolvedConnection}
use netmon.Resolver.Api.{ResolverApi}
use netmon.Resolver.Cache.Laws.{resolver_api}
use netmon.Resolver.Tests.{silent_host, curl, filled_cache, answer_flow, answer_owner}
use netmon.Aggregator.Types.{
  ThreadKey, ThreadStats, Interface, HistoryCsvRow, ThreadKey-discrete, thread_key_eq,
}
use netmon.Aggregator.History.{rotate_second, rotate_interface_second}
use netmon.Aggregator.History.Shift.{pushed, rotate_second_lem, rotate_interface_second_lem}
use netmon.Aggregator.Record.{
  Counters, thread_key, count_record, count_interface, lookup_process_from_connections,
  process_record,
}
use netmon.Aggregator.Record.Lookup.{FirstOwner, lookup_process_from_connections-FirstOwner}
use netmon.Aggregator.Threads.{mark_exited_threads}
use netmon.Aggregator.Threads.Exited.{process_record-mark_exited_threads}
use netmon.Aggregator.Csv.{csv_line, sanitize_csv}
use netmon.Aggregator.Csv.Fields.{split_on-csv_line}
use netmon.Aggregator.Publish.{publish_rows, publish_interface}
use netmon.Aggregator.Publish.Connections.{expected_rows}
use netmon.Aggregator.Publish.Rows.{IsSortedRows, publish_rows-perm}
use netmon.Resolver.Cache.{
  ResolverCache, refresh_if_needed, list_connections, resolve_flow_owner, find_owner,
}
use netmon.Base.Numbers.{decimal}
use netmon.Base.Word.{u64_max}
use netmon.Aggregator.Loop.{Locals, Published, Input, start_locals, run_aggregator_loop}
use netmon.Aggregator.Invariant.{IsConsistent}
use netmon.Aggregator.Invariant.Turns.{run_aggregator_loop-IsConsistent}
use netmon.Aggregator.History.{shift_slots}
use netmon.Aggregator.Loop.{
  count_received, new_interface, turn, refresh_connection_cache_if_due, drain_flow_channel,
}
use netmon.Aggregator.Loop.Kept.{IsFresh, count_received-IsFresh}
use netmon.Aggregator.Publish.Bandwidth.{run_aggregator_loop-le-peak}
use netmon.Aggregator.Rotation.{rotate_histories_if_due, rotate_histories, raise_peak}
use netmon.Base.Word.{saturating_add, wrapping_add}

abbrev api : ResolverApi
api = resolver_api silent_host

abbrev answer_record : FlowRecord
answer_record = record { key = answer_flow; byte_count = 1500; timestamp = 5400; direction = rx }

abbrev interface : Interface
interface = record {
  tx_total = 9;
  rx_total = 7;
  tx_current_second = 4;
  rx_current_second = 3;
  tx_history = replicate 300 0;
  rx_history = replicate 300 0;
  peak_bw = 0;
}

abbrev stats : ThreadStats
stats = record {
  info = curl;
  tx_bytes_total = 9;
  rx_bytes_total = 7;
  last_seen = 5000;
  tx_current_second = 4;
  rx_current_second = 3;
  tx_history = replicate 300 0;
  rx_history = replicate 300 0;
}

abbrev published : Published
published = record {
  rows = [];
  interface = publish_interface interface;
  csv = record { file = []; history = [] };
}

abbrev first_input : Input
first_input = record {
  now = 5500;
  received = answer_record ∷ [];
  blocked = 42 ∷ [];
  timestamp = 0;
  has_history_csv = true;
}

abbrev tick_input : Input
tick_input = record {
  now = 6600;
  received = [];
  blocked = [];
  timestamp = 1;
  has_history_csv = true;
}

abbrev inputs : List Input
inputs = first_input ∷ (tick_input ∷ [])

run_aggregator_loop-IsConsistent_example :
    IsConsistent
      (run_aggregator_loop api inputs (start_locals 5000 filled_cache, published)).0.counters
run_aggregator_loop-IsConsistent_example =
    run_aggregator_loop-IsConsistent api inputs 5000 filled_cache published

abbrev counters : Counters
counters = record {
  threads = (thread_key curl, stats) ∷ [];
  connections = [];
  interface = interface;
}

process_record-mark_exited_threads_example :
    get
      (thread_key curl)
      (mark_exited_threads api 5500
        (process_record api 5500 answer_record [] (filled_cache, counters)).1.threads
        (process_record api 5500 answer_record [] (filled_cache, counters)).0).0
    ≡ get
        (thread_key curl)
        (process_record api 5500 answer_record [] (filled_cache, counters)).1.threads
process_record-mark_exited_threads_example =
    process_record-mark_exited_threads api 5500 answer_record [] filled_cache counters curl
      answer_owner

abbrev connection : ResolvedConnection
connection = record {
  local_addr = record { ip = answer_flow.dst_ip; port = 51201 };
  remote_addr = record { ip = answer_flow.src_ip; port = 443 };
  protocol = tcp;
  state = text "ESTABLISHED";
  inode = 70000;
  pid = 42;
  tid = 43;
  process = curl.name;
  thread_name = curl.thread_name;
  uid = 1000;
  username = curl.username;
}

lookup_process_from_connections-FirstOwner_example :
    FirstOwner answer_flow
      (connection ∷ [])
      (lookup_process_from_connections answer_flow (connection ∷ []))
lookup_process_from_connections-FirstOwner_example =
    lookup_process_from_connections-FirstOwner answer_flow (connection ∷ [])

abbrev threads : HashMap ThreadKey ThreadStats
threads =
    (thread_key curl, stats)
    ∷ (record { pid = 7; tid = 7 }, record stats { rx_bytes_total = 1 })
    ∷ []

threads-DistinctKeys : DistinctKeys threads
unfolding get decide ThreadKey-discrete ℕ_discrete
threads-DistinctKeys = (refl, (refl, tt))

publish_rows-perm_example :
    IsSortedRows (publish_rows (42 ∷ []) threads (connection ∷ []) [])
    × Perm
        (publish_rows (42 ∷ []) threads (connection ∷ []) [])
        (expected_rows (42 ∷ []) threads (connection ∷ []) [])
publish_rows-perm_example =
    publish_rows-perm (42 ∷ []) threads (connection ∷ []) [] threads-DistinctKeys

rotate_second_lem_example : rotate_second stats ≡ (record stats {
  tx_history = pushed 4 (replicate 300 0);
  rx_history = pushed 3 (replicate 300 0);
  tx_current_second = 0;
  rx_current_second = 0;
})
rotate_second_lem_example = rotate_second_lem stats refl refl

rotate_interface_second_lem_example : rotate_interface_second interface ≡ (record interface {
  tx_history = pushed 4 (replicate 300 0);
  rx_history = pushed 3 (replicate 300 0);
  tx_current_second = 0;
  rx_current_second = 0;
})
rotate_interface_second_lem_example = rotate_interface_second_lem interface refl refl

-- A process whose name has a comma and a quote.
abbrev csv_row : HistoryCsvRow
csv_row = record {
  timestamp = 1700000000;
  pid = 42;
  tid = 43;
  process = text "a,b";
  thread = text "\"t\"";
  user = text "me";
  uid = 1000;
  tx_bytes_total = 9;
  rx_bytes_total = 7;
  tx_2s_avg = 1;
  rx_2s_avg = 2;
  tx_10s_avg = 0;
  rx_10s_avg = 0;
}

split_on-csv_line_example :
    split_on 44 (csv_line csv_row)
    ≡ decimal 1700000000
      ∷ decimal 42
      ∷ decimal 43
      ∷ sanitize_csv (text "a,b")
      ∷ sanitize_csv (text "\"t\"")
      ∷ sanitize_csv (text "me")
      ∷ decimal 1000
      ∷ decimal 9
      ∷ decimal 7
      ∷ decimal 1
      ∷ decimal 2
      ∷ decimal 0
      ∷ (decimal 0 ++ text "\n")
      ∷ []
split_on-csv_line_example = split_on-csv_line csv_row

count_received-IsFresh_example :
    IsFresh 5500
      (count_received api 5500 (answer_record ∷ []) (start_locals 5000 filled_cache)).counters
count_received-IsFresh_example =
    count_received-IsFresh api 5500 (answer_record ∷ []) (start_locals 5000 filled_cache)

-- The aggregator after a turn with a record and one with a tick.
abbrev ticked : Locals ResolverCache × Published
ticked =
    run_aggregator_loop api (first_input ∷ (tick_input ∷ []))
      (start_locals 5000 filled_cache, published)

ticked_newest :
    get_or ticked.0.counters.interface.tx_history 0 0
      + get_or ticked.0.counters.interface.rx_history 0 0
    ≤ u64_max
unfolding run_aggregator_loop turn count_received start_locals new_interface
    refresh_connection_cache_if_due drain_flow_channel process_record count_record count_interface
    mark_exited_threads rotate_histories_if_due rotate_histories raise_peak rotate_interface_second
    shift_slots saturating_add wrapping_add refresh_if_needed list_connections resolve_flow_owner
    lookup_process_from_connections find_owner
ticked_newest = omega arith

run_aggregator_loop-le-peak_example :
    ticked.1.interface.current_bandwidth_bytes_per_sec
    ≤ ticked.1.interface.peak_bandwidth_bytes_per_sec
run_aggregator_loop-le-peak_example =
    run_aggregator_loop-le-peak api (first_input ∷ []) tick_input 5000 filled_cache published
      ticked_newest
