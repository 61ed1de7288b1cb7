-- ===== src/Aggregator/Types.antt =====
-- The data of crates/aggregator/src/lib.rs. Times are milliseconds on the monotonic clock.
use netmon.Base.{ℕ, Bool, List, ℕ_discrete, PartialEq, of_discrete, replicate}
use netmon.Base.Text.{Text, text}
use netmon.Net.{SocketAddr, SocketAddr-discrete}
use netmon.Capture.Types.{Protocol, Protocol-discrete}
use netmon.Resolver.Types.{ProcessInfo}

abbrev pub history_slots : ℕ
history_slots = 300

abbrev pub resolver_scan_interval : ℕ
resolver_scan_interval = 800

abbrev pub process_eviction_timeout : ℕ
process_eviction_timeout = 30000

abbrev pub unknown_process_label : Text
unknown_process_label = text "[unknown]"

abbrev pub exited_suffix : Text
exited_suffix = text " [exited]"

pub record ThreadKey : Type 0 where
  pub pid : ℕ
  pub tid : ℕ

pub record ConnectionKey : Type 0 where
  pub pid : ℕ
  pub tid : ℕ
  pub local_addr : SocketAddr
  pub remote_addr : SocketAddr
  pub protocol : Protocol

pub record ConnectionStats : Type 0 where
  pub tx_bytes : ℕ
  pub rx_bytes : ℕ
  pub last_seen : ℕ

pub record ThreadStats : Type 0 where
  pub info : ProcessInfo
  pub tx_bytes_total : ℕ
  pub rx_bytes_total : ℕ
  pub last_seen : ℕ
  pub tx_current_second : ℕ
  pub rx_current_second : ℕ
  pub tx_history : List ℕ
  pub rx_history : List ℕ

-- `ThreadStats::new`
unfoldable pub new_stats : ℕ → ProcessInfo → ThreadStats
new_stats now info = record {
  info = info;
  tx_bytes_total = 0;
  rx_bytes_total = 0;
  last_seen = now;
  tx_current_second = 0;
  rx_current_second = 0;
  tx_history = replicate history_slots 0;
  rx_history = replicate history_slots 0;
}

-- The counters of the whole interface, which `run_aggregator_loop` keeps in local variables.
pub record Interface : Type 0 where
  pub tx_total : ℕ
  pub rx_total : ℕ
  pub tx_current_second : ℕ
  pub rx_current_second : ℕ
  pub tx_history : List ℕ
  pub rx_history : List ℕ
  pub peak_bw : ℕ

pub record ConnectionEntry : Type 0 where
  pub local_addr : SocketAddr
  pub remote_addr : SocketAddr
  pub protocol : Protocol
  pub state : Text
  pub pid : ℕ
  pub tid : ℕ
  pub process : Text
  pub thread_name : Text
  pub username : Text
  pub tx_bytes : ℕ
  pub rx_bytes : ℕ

pub record ProcessRow : Type 0 where
  pub info : ProcessInfo
  pub tx_bytes : ℕ
  pub rx_bytes : ℕ
  pub last_seen : ℕ
  pub tx_history : List ℕ
  pub rx_history : List ℕ
  pub is_blocked : Bool
  pub connections : List ConnectionEntry

pub record InterfaceStats : Type 0 where
  pub tx_bytes_total : ℕ
  pub rx_bytes_total : ℕ
  pub current_bandwidth_bytes_per_sec : ℕ
  pub peak_bandwidth_bytes_per_sec : ℕ
  pub tx_history : List ℕ
  pub rx_history : List ℕ

pub record HistoryCsvRow : Type 0 where
  pub timestamp : ℕ
  pub pid : ℕ
  pub tid : ℕ
  pub process : Text
  pub thread : Text
  pub user : Text
  pub uid : ℕ
  pub tx_bytes_total : ℕ
  pub rx_bytes_total : ℕ
  pub tx_2s_avg : ℕ
  pub rx_2s_avg : ℕ
  pub tx_10s_avg : ℕ
  pub rx_10s_avg : ℕ

unfoldable pub ThreadKey-discrete : Discrete ThreadKey
ThreadKey-discrete = hlevel ℕ_discrete

unfoldable pub ConnectionKey-discrete : Discrete ConnectionKey
unfolding SocketAddr-discrete Protocol-discrete
ConnectionKey-discrete = hlevel (ℕ_discrete, SocketAddr-discrete, Protocol-discrete)

instance abbrev pub thread_key_eq : PartialEq ThreadKey
thread_key_eq = of_discrete ThreadKey-discrete

instance abbrev pub connection_key_eq : PartialEq ConnectionKey
connection_key_eq = of_discrete ConnectionKey-discrete
