-- ===== src/Aggregator/Publish.antt =====
-- `publish_snapshots` of crates/aggregator/src/lib.rs: the rows and the interface statistics that
-- the user interface reads. `last_seen`, the maps and the histories are copied.
pub mod Connections
pub mod Rows
pub mod Bandwidth
use netmon.Base.{
  ℕ, Bool, true, false, ◌&&◌, ◌||◌, List, [], ◌∷◌, ◌++◌, Option, none, some, get_or, ltb, nat_eq,
  leb, ◌==◌, if◌then◌else◌,
}
use netmon.Base.Word.{saturating_add}
use netmon.HashMap.{HashMap, get, remove, upsert, or_default}
use netmon.Resolver.Types.{ResolvedConnection}
use netmon.Aggregator.Types.{
  ThreadKey, ConnectionKey, ConnectionStats, ThreadStats, Interface, ProcessRow, ConnectionEntry,
  InterfaceStats, thread_key_eq, connection_key_eq,
}

-- `HashMap<ThreadKey, Vec<ConnectionEntry>>`
abbrev pub ConnByThread : Type 0
ConnByThread = HashMap ThreadKey (List ConnectionEntry)

abbrev pub conn_thread : ResolvedConnection → ThreadKey
conn_thread conn = record { pid = conn.pid; tid = conn.tid }

abbrev pub stats_key : ResolvedConnection → ConnectionKey
stats_key conn = record {
  pid = conn.pid;
  tid = conn.tid;
  local_addr = conn.local_addr;
  remote_addr = conn.remote_addr;
  protocol = conn.protocol;
}

abbrev pub reverse_key : ResolvedConnection → ConnectionKey
reverse_key conn = record {
  pid = conn.pid;
  tid = conn.tid;
  local_addr = conn.remote_addr;
  remote_addr = conn.local_addr;
  protocol = conn.protocol;
}

abbrev pub pick_bytes : Option ConnectionStats → Option ConnectionStats → ℕ × ℕ
pick_bytes (some stats) other = (stats.tx_bytes, stats.rx_bytes)
pick_bytes none (some stats) = (stats.rx_bytes, stats.tx_bytes)
pick_bytes none none = (0, 0)

-- The transmitted and received bytes of a connection.
unfoldable pub connection_bytes : HashMap ConnectionKey ConnectionStats → ResolvedConnection → ℕ × ℕ
connection_bytes connection_stats conn =
    pick_bytes (get (stats_key conn) connection_stats) (get (reverse_key conn) connection_stats)

unfoldable pub connection_entry :
    HashMap ConnectionKey ConnectionStats → ResolvedConnection → ConnectionEntry
connection_entry connection_stats conn =
    let (tx_bytes, rx_bytes) = connection_bytes connection_stats conn in
    record {
      local_addr = conn.local_addr;
      remote_addr = conn.remote_addr;
      protocol = conn.protocol;
      state = conn.state;
      pid = conn.pid;
      tid = conn.tid;
      process = conn.process;
      thread_name = conn.thread_name;
      username = conn.username;
      tx_bytes = tx_bytes;
      rx_bytes = rx_bytes;
    }

-- The loop over the connection cache: `conn_by_thread.entry(key).or_default().push(entry)`.
unfoldable pub group_connections :
    HashMap ConnectionKey ConnectionStats → List ResolvedConnection → ConnByThread → ConnByThread
group_connections connection_stats [] by_thread = by_thread
group_connections connection_stats (conn ∷ rest) by_thread =
    group_connections connection_stats rest (
      upsert (conn_thread conn) [] (λ es. es ++ (connection_entry connection_stats conn ∷ []))
        by_thread)

-- `blocked.contains(&pid)`
unfoldable pub is_blocked : List ℕ → ℕ → Bool
is_blocked [] pid = false
is_blocked (p ∷ ps) pid = nat_eq p pid || is_blocked ps pid

unfoldable pub process_row : List ℕ → ThreadKey → ThreadStats → List ConnectionEntry → ProcessRow
process_row blocked key s connections = record {
  info = s.info;
  tx_bytes = s.tx_bytes_total;
  rx_bytes = s.rx_bytes_total;
  last_seen = s.last_seen;
  tx_history = s.tx_history;
  rx_history = s.rx_history;
  is_blocked = is_blocked blocked key.pid;
  connections = connections;
}

-- The loop over the threads, which takes each thread's connections out of the map.
unfoldable pub collect_rows :
    List ℕ → HashMap ThreadKey ThreadStats → ConnByThread → List ProcessRow
collect_rows blocked [] by_thread = []
collect_rows blocked ((key, s) ∷ m) by_thread =
    process_row blocked key s (or_default (get key by_thread) [])
    ∷ collect_rows blocked m (remove key by_thread)

-- `(a.pid, a.tid) <= (b.pid, b.tid)`
unfoldable pub row_le : ProcessRow → ProcessRow → Bool
row_le a b =
    ltb a.info.pid b.info.pid || (nat_eq a.info.pid b.info.pid && leb a.info.tid b.info.tid)

unfoldable pub insert_row : ProcessRow → List ProcessRow → List ProcessRow
insert_row r [] = r ∷ []
insert_row r (x ∷ xs) = let rest = insert_row r xs in if row_le r x then r ∷ x ∷ xs else x ∷ rest

-- `rows.sort_by_key(|r| (r.info.pid, r.info.tid))`, a stable sort
unfoldable pub sort_rows : List ProcessRow → List ProcessRow
sort_rows [] = []
sort_rows (r ∷ rs) = insert_row r (sort_rows rs)

unfoldable pub publish_rows :
    List ℕ
    → HashMap ThreadKey ThreadStats
    → List ResolvedConnection
    → HashMap ConnectionKey ConnectionStats
    → List ProcessRow
publish_rows blocked threads connection_cache connection_stats =
    sort_rows
      (collect_rows blocked threads (group_connections connection_stats connection_cache []))

unfoldable pub publish_interface : Interface → InterfaceStats
publish_interface f = record {
  tx_bytes_total = f.tx_total;
  rx_bytes_total = f.rx_total;
  current_bandwidth_bytes_per_sec =
      saturating_add (get_or f.tx_history 0 0) (get_or f.rx_history 0 0);
  peak_bandwidth_bytes_per_sec = f.peak_bw;
  tx_history = f.tx_history;
  rx_history = f.rx_history;
}
