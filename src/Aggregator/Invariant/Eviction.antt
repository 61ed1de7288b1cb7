-- ===== src/Aggregator/Invariant/Eviction.antt =====
-- Evicting threads and shifting histories keep what the counters keep.
use netmon.Base.{ℕ, ◌≤◌, List, arith}
use netmon.HashMap.Laws.{retain-DistinctKeys}
use netmon.HashMap.Entries.{AllEntries-retain}
use netmon.HashMap.Sums.{sum_by-retain-le}
use netmon.Aggregator.Types.{ThreadStats, Interface, thread_key_eq, connection_key_eq}
use netmon.Aggregator.History.{rotate_second, rotate_interface_second}
use netmon.Aggregator.History.Shift.{
  rotate_second_lem, rotate_interface_second_lem, pushed, length-pushed,
}
use netmon.Aggregator.History.Sums.{AllLe-pushed, sum-pushed-le}
use netmon.Aggregator.Record.{Counters}
use netmon.Aggregator.Threads.{evict_stale_threads, prune_connection_stats, is_live, is_kept}
use netmon.Aggregator.Invariant.{Covers, IsThread, IsInterface, Within, IsConsistent}

Within-le : (a b total : ℕ) → a ≤ b → Within b total → Within a total
Within-le a b total h w = ground arith

-- Evicting threads keeps the counters consistent.
pub evict-IsConsistent :
    (now : ℕ) (c : Counters)
    → IsConsistent c
    → IsConsistent (record c { threads = evict_stale_threads now c.threads })
unfolding evict_stale_threads
evict-IsConsistent now c v = record {
  interface = v.interface;
  peak = v.peak;
  distinct_threads = retain-DistinctKeys (is_live now) c.threads v.distinct_threads;
  distinct_connections = v.distinct_connections;
  keyed = AllEntries-retain _ (is_live now) c.threads v.keyed;
  threads = AllEntries-retain _ (is_live now) c.threads v.threads;
  threads_tx = Within-le _ _ _ (sum_by-retain-le _ (is_live now) c.threads) v.threads_tx;
  threads_rx = Within-le _ _ _ (sum_by-retain-le _ (is_live now) c.threads) v.threads_rx;
  connections_tx = v.connections_tx;
  connections_rx = v.connections_rx;
}

-- So does pruning connections.
pub prune-IsConsistent :
    (now : ℕ) (c : Counters)
    → IsConsistent c
    → IsConsistent (record c { connections = prune_connection_stats now c.threads c.connections })
unfolding prune_connection_stats
prune-IsConsistent now c v = record {
  interface = v.interface;
  peak = v.peak;
  distinct_threads = v.distinct_threads;
  distinct_connections =
      retain-DistinctKeys (is_kept now c.threads) c.connections v.distinct_connections;
  keyed = v.keyed;
  threads = v.threads;
  threads_tx = v.threads_tx;
  threads_rx = v.threads_rx;
  connections_tx =
      Within-le _ _ _ (sum_by-retain-le _ (is_kept now c.threads) c.connections) v.connections_tx;
  connections_rx =
      Within-le _ _ _ (sum_by-retain-le _ (is_kept now c.threads) c.connections) v.connections_rx;
}

Covers-rotate : (t c : ℕ) (h : List ℕ) → Covers t c h → Covers t 0 (pushed c h)
Covers-rotate t c h k = ground (arith, sum-pushed-le c h)

pub rotate-IsThread :
    (f : Interface) (s : ThreadStats)
    → IsInterface f
    → IsThread f s
    → IsThread (rotate_interface_second f) (rotate_second s)
rotate-IsThread f s i t =
    rw
      (
        rotate_interface_second_lem f i.tx_length i.rx_length,
        rotate_second_lem s t.tx_length t.rx_length,
      )
      (record {
        tx_covers = Covers-rotate s.tx_bytes_total s.tx_current_second s.tx_history t.tx_covers;
        rx_covers = Covers-rotate s.rx_bytes_total s.rx_current_second s.rx_history t.rx_covers;
        tx_le = t.tx_le;
        rx_le = t.rx_le;
        tx_current_le = omega arith;
        rx_current_le = omega arith;
        tx_history_le = AllLe-pushed _ _ _ _ t.tx_current_le t.tx_history_le;
        rx_history_le = AllLe-pushed _ _ _ _ t.rx_current_le t.rx_history_le;
        tx_length = length-pushed s.tx_current_second s.tx_history t.tx_length;
        rx_length = length-pushed s.rx_current_second s.rx_history t.rx_length;
      })

pub rotate-IsInterface : (f : Interface) → IsInterface f → IsInterface (rotate_interface_second f)
rotate-IsInterface f i = rw (rotate_interface_second_lem f i.tx_length i.rx_length) (record {
  tx_covers = Covers-rotate f.tx_total f.tx_current_second f.tx_history i.tx_covers;
  rx_covers = Covers-rotate f.rx_total f.rx_current_second f.rx_history i.rx_covers;
  tx_fits = i.tx_fits;
  rx_fits = i.rx_fits;
  tx_current_fits = omega arith;
  rx_current_fits = omega arith;
  tx_length = length-pushed f.tx_current_second f.tx_history i.tx_length;
  rx_length = length-pushed f.rx_current_second f.rx_history i.rx_length;
})
