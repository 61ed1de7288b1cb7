-- ===== src/Aggregator/Invariant/Records.antt =====
-- A flow record keeps the counters consistent.
use netmon.Base.{ℕ, ◌≡◌, refl, sym, ap, subst, arith, PartialEq}
use netmon.Base.Word.{saturating_add}
use netmon.HashMap.{HashMap, or_default, get, upsert}
use netmon.HashMap.Laws.{upsert-DistinctKeys}
use netmon.HashMap.Entries.{upsert-AllEntries_step, upsert-AllEntries}
use netmon.HashMap.Sums.{sum_by, sum_by-upsert}
use netmon.Capture.Types.{Direction, tx, rx, FlowRecord}
use netmon.Resolver.Types.{ProcessInfo}
use netmon.Aggregator.Types.{
  ConnectionStats, ThreadStats, new_stats, thread_key_eq, connection_key_eq,
}
use netmon.Aggregator.Record.{
  Counters, thread_key, count_thread, count_interface, count_connection, count_record,
  update_connection_stats, is_tx,
}
use netmon.Aggregator.Invariant.{IsThread, Within, IsConsistent}
use netmon.Aggregator.Invariant.Threads.{
  Within-count, saturating_add-le, new_stats-IsThread, count_interface-IsInterface,
  count_interface-BelowPeak, count_thread-IsThread, grown-IsThread,
}

-- One entry of a map counts a record: the sum over the map grows by its bytes at most where the
-- record's direction is counted, and not at all elsewhere.
module _ {K V : Type 0} ⦃e : PartialEq K⦄ (g : V → ℕ) (k : K) (d : V) (f : V → V) (m : HashMap K V)
    (zero_d : g d ≡ 0) where
  counted_sum :
      (b total : ℕ)
      → ((v : V) → g (f v) ≡ saturating_add (g v) b)
      → Within (sum_by g m) total
      → Within (sum_by g (upsert k d f m)) (saturating_add total b)
  counted_sum b total h w =
      Within-count (sum_by g m) (sum_by g (upsert k d f m)) total b
        (omega (arith, sum_by-upsert g k d f m zero_d, h old, saturating_add-le (g old) b)) w
    where
      old : V
      old = or_default (get k m) d

  untouched_sum :
      (total : ℕ)
      → ((v : V) → g (f v) ≡ g v)
      → Within (sum_by g m) total
      → Within (sum_by g (upsert k d f m)) total
  untouched_sum total h w =
      subst (λ n. Within n total)
        (omega (arith, sum_by-upsert g k d f m zero_d, h (or_default (get k m) d))) w

thread_sums :
    (now : ℕ) (info : ProcessInfo) (b : ℕ) (d : Direction) (c : Counters)
    → IsConsistent c
    → let threads =
        upsert (thread_key info) (new_stats now info) (count_thread now info b d) c.threads in
      Within
        (sum_by (λ (s : ThreadStats). s.tx_bytes_total) threads)
        (count_interface b d c.interface).tx_total
      × Within
          (sum_by (λ (s : ThreadStats). s.rx_bytes_total) threads)
          (count_interface b d c.interface).rx_total
unfolding count_interface count_thread new_stats
thread_sums now info b tx c v = (
  counted_sum _ _ _ _ c.threads refl b _ (λ s. refl) v.threads_tx,
  untouched_sum _ _ _ _ c.threads refl _ (λ s. refl) v.threads_rx,
)
thread_sums now info b rx c v = (
  untouched_sum _ _ _ _ c.threads refl _ (λ s. refl) v.threads_tx,
  counted_sum _ _ _ _ c.threads refl b _ (λ s. refl) v.threads_rx,
)

connection_sums :
    (now : ℕ) (r : FlowRecord) (info : ProcessInfo) (d : Direction) (c : Counters)
    → IsConsistent c
    → let connections =
        update_connection_stats now r.key info r.byte_count (is_tx d) c.connections in
      Within
        (sum_by (λ (s : ConnectionStats). s.tx_bytes) connections)
        (count_interface r.byte_count d c.interface).tx_total
      × Within
          (sum_by (λ (s : ConnectionStats). s.rx_bytes) connections)
          (count_interface r.byte_count d c.interface).rx_total
unfolding count_interface update_connection_stats count_connection
connection_sums now r info tx c v = (
  counted_sum _ _ _ _ c.connections refl r.byte_count _ (λ s. refl) v.connections_tx,
  untouched_sum _ _ _ _ c.connections refl _ (λ s. refl) v.connections_rx,
)
connection_sums now r info rx c v = (
  untouched_sum _ _ _ _ c.connections refl _ (λ s. refl) v.connections_tx,
  counted_sum _ _ _ _ c.connections refl r.byte_count _ (λ s. refl) v.connections_rx,
)

count_thread_info :
    (now : ℕ) (info : ProcessInfo) (b : ℕ) (d : Direction) (s : ThreadStats)
    → (count_thread now info b d s).info ≡ info
unfolding count_thread
count_thread_info now info b tx s = refl
count_thread_info now info b rx s = refl

new_stats_info : (now : ℕ) (info : ProcessInfo) → (new_stats now info).info ≡ info
unfolding new_stats
new_stats_info now info = refl

-- Counting a record for any owner keeps the counters consistent.
pub count_record-IsConsistent :
    (now : ℕ) (r : FlowRecord) (info : ProcessInfo) (c : Counters)
    → IsConsistent c
    → IsConsistent (count_record now r info c)
unfolding count_record update_connection_stats
count_record-IsConsistent now r info c v = record {
  interface = count_interface-IsInterface r.byte_count r.direction c.interface v.interface;
  peak = count_interface-BelowPeak r.byte_count r.direction c.interface v.peak;
  distinct_threads = upsert-DistinctKeys _ _ _ c.threads v.distinct_threads;
  distinct_connections = upsert-DistinctKeys _ _ _ c.connections v.distinct_connections;
  keyed =
      upsert-AllEntries (λ k s. k ≡ thread_key s.info) (thread_key info) (new_stats now info) _
        c.threads (ap thread_key (sym (new_stats_info now info)))
        (λ s _. ap thread_key (sym (count_thread_info now info r.byte_count r.direction s)))
        v.keyed;
  threads =
      upsert-AllEntries_step (λ k s. IsThread c.interface s) _ (thread_key info)
        (new_stats now info) _ c.threads (new_stats-IsThread c.interface now info v.interface)
        (λ s t. count_thread-IsThread now info r.byte_count r.direction c.interface s t)
        (λ k s t. grown-IsThread r.byte_count r.direction c.interface s v.interface t) v.threads;
  threads_tx = (thread_sums now info r.byte_count r.direction c v).0;
  threads_rx = (thread_sums now info r.byte_count r.direction c v).1;
  connections_tx = (connection_sums now r info r.direction c v).0;
  connections_rx = (connection_sums now r info r.direction c v).1;
}
