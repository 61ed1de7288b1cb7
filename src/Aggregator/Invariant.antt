-- ===== src/Aggregator/Invariant.antt =====
-- What holds of the aggregator's counters at all times.
pub mod Records
pub mod Threads
pub mod Upkeep
pub mod Eviction
pub mod Marking
pub mod Turns
use netmon.Base.{ℕ, ◌+◌, ◌≤◌, ◌≡◌, ◌⊎◌, List, [], ◌∷◌, length}
use netmon.Base.Word.{u64_max, wrapping_add}
use netmon.HashMap.{DistinctKeys}
use netmon.HashMap.Entries.{AllEntries}
use netmon.HashMap.Sums.{sum_by}
use netmon.Aggregator.Types.{
  ThreadKey, ConnectionKey, ConnectionStats, ThreadStats, Interface, thread_key_eq,
  connection_key_eq,
}
use netmon.Aggregator.History.Sums.{AllLe, sum}
use netmon.Aggregator.Record.{Counters, thread_key}

-- A total covers the current second and the history, unless it stands at the largest u64.
abbrev pub Covers : ℕ → ℕ → List ℕ → Type 0
Covers total current history = (current + sum history ≤ total) ⊎ (total ≡ u64_max)

-- One thread: its totals fit a u64 and cover its histories of 300 samples, and no counter, sample
-- included, is above that of the interface.
pub record IsThread (f : Interface) (s : ThreadStats) : Type 0 where
  pub tx_covers : Covers s.tx_bytes_total s.tx_current_second s.tx_history
  pub rx_covers : Covers s.rx_bytes_total s.rx_current_second s.rx_history
  pub tx_le : s.tx_bytes_total ≤ f.tx_total
  pub rx_le : s.rx_bytes_total ≤ f.rx_total
  pub tx_current_le : s.tx_current_second ≤ f.tx_current_second
  pub rx_current_le : s.rx_current_second ≤ f.rx_current_second
  pub tx_history_le : AllLe s.tx_history f.tx_history
  pub rx_history_le : AllLe s.rx_history f.rx_history
  pub tx_length : length s.tx_history ≡ 300
  pub rx_length : length s.rx_history ≡ 300

-- The interface itself.
pub record IsInterface (f : Interface) : Type 0 where
  pub tx_covers : Covers f.tx_total f.tx_current_second f.tx_history
  pub rx_covers : Covers f.rx_total f.rx_current_second f.rx_history
  pub tx_fits : f.tx_total ≤ u64_max
  pub rx_fits : f.rx_total ≤ u64_max
  pub tx_current_fits : f.tx_current_second ≤ u64_max
  pub rx_current_fits : f.rx_current_second ≤ u64_max
  pub tx_length : length f.tx_history ≡ 300
  pub rx_length : length f.rx_history ≡ 300

-- The bytes that all entries of a map count are bytes that the interface counted.
abbrev pub Within : ℕ → ℕ → Type 0
Within counted total = (counted ≤ total) ⊎ (total ≡ u64_max)

-- The recorded peak is no lower than the bandwidth of any second still in the histories.
abbrev pub BelowPeak : ℕ → List ℕ → List ℕ → Type 0
BelowPeak peak [] ys = Unit {0}
BelowPeak peak (x ∷ xs) [] = Unit {0}
BelowPeak peak (x ∷ xs) (y ∷ ys) = (wrapping_add x y ≤ peak) × BelowPeak peak xs ys

pub record IsConsistent (c : Counters) : Type 0 where
  pub interface : IsInterface c.interface
  pub peak : BelowPeak c.interface.peak_bw c.interface.tx_history c.interface.rx_history
  pub distinct_threads : DistinctKeys c.threads
  pub distinct_connections : DistinctKeys c.connections
  pub keyed : AllEntries (λ k s. k ≡ thread_key s.info) c.threads
  pub threads : AllEntries (λ k s. IsThread c.interface s) c.threads
  pub threads_tx :
      Within (sum_by (λ (s : ThreadStats). s.tx_bytes_total) c.threads) c.interface.tx_total
  pub threads_rx :
      Within (sum_by (λ (s : ThreadStats). s.rx_bytes_total) c.threads) c.interface.rx_total
  pub connections_tx :
      Within (sum_by (λ (s : ConnectionStats). s.tx_bytes) c.connections) c.interface.tx_total
  pub connections_rx :
      Within (sum_by (λ (s : ConnectionStats). s.rx_bytes) c.connections) c.interface.rx_total
