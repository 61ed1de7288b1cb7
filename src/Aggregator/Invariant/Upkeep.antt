-- ===== src/Aggregator/Invariant/Upkeep.antt =====
-- Marking, evicting, pruning and the one-second tick keep the counters consistent.
use netmon.Base.{
  ℕ, ◌≤◌, ◌≡◌, refl, sym, ap, ◌∙◌, inl, inr, List, [], ◌∷◌, arith, if◌then◌else◌, Bool-cases, ltb,
  take, zero, suc,
}
use netmon.HashMap.Laws.{map_entries-DistinctKeys}
use netmon.HashMap.Entries.{map_entries-AllEntries}
use netmon.HashMap.Sums.{sum_by-map_entries}
use netmon.Aggregator.Types.{ThreadStats, Interface, thread_key_eq, connection_key_eq}
use netmon.Aggregator.History.{rotate_second, rotate_interface_second}
use netmon.Aggregator.History.Shift.{rotate_interface_second_lem, pushed}
use netmon.Aggregator.Record.{Counters, thread_key}
use netmon.Aggregator.Rotation.{newest_bandwidth, raise_peak, rotate_histories}
use netmon.Aggregator.Invariant.{IsThread, IsInterface, Within, BelowPeak, IsConsistent}
use netmon.Aggregator.Invariant.Eviction.{rotate-IsThread, rotate-IsInterface}

-- The peak after the tick.
new_peak : Interface → ℕ
new_peak f = if ltb f.peak_bw (newest_bandwidth f) then newest_bandwidth f else f.peak_bw

raise_peak_lem : (f : Interface) → raise_peak f ≡ (record f { peak_bw = new_peak f })
unfolding raise_peak new_peak
raise_peak_lem f = elim (Bool-cases (ltb f.peak_bw (newest_bandwidth f))) [
  | inl y ↦ rw y
  | inr n ↦ rw n
]

new_peak_bounds : (f : Interface) → (f.peak_bw ≤ new_peak f) × (newest_bandwidth f ≤ new_peak f)
unfolding new_peak
new_peak_bounds f = ground arith

BelowPeak-take :
    (n p q : ℕ) (xs ys : List ℕ) → p ≤ q → BelowPeak p xs ys → BelowPeak q (take n xs) (take n ys)
BelowPeak-take zero p q xs ys h b = tt
BelowPeak-take (suc n) p q [] ys h b = tt
BelowPeak-take (suc n) p q (x ∷ xs) [] h b = tt
BelowPeak-take (suc n) p q (x ∷ xs) (y ∷ ys) h b =
    (omega (arith, b.0), BelowPeak-take n p q xs ys h b.1)

rotate-BelowPeak :
    (f : Interface)
    → IsInterface f
    → BelowPeak f.peak_bw f.tx_history f.rx_history
    → let f' = raise_peak (rotate_interface_second f) in
      BelowPeak f'.peak_bw f'.tx_history f'.rx_history
rotate-BelowPeak f i b =
    rw
      (
        raise_peak_lem (rotate_interface_second f),
        rotate_interface_second_lem f i.tx_length i.rx_length,
      )
      (
        (new_peak_bounds g).1,
        BelowPeak-take 299 f.peak_bw (new_peak g) f.tx_history f.rx_history (new_peak_bounds g).0 b,
      )
  where
    g : Interface
    g = record f {
      tx_history = pushed f.tx_current_second f.tx_history;
      rx_history = pushed f.rx_current_second f.rx_history;
      tx_current_second = 0;
      rx_current_second = 0;
    }

raised-IsInterface : (f : Interface) → IsInterface f → IsInterface (raise_peak f)
raised-IsInterface f i = rw (raise_peak_lem f) (record {
  tx_covers = i.tx_covers;
  rx_covers = i.rx_covers;
  tx_fits = i.tx_fits;
  rx_fits = i.rx_fits;
  tx_current_fits = i.tx_current_fits;
  rx_current_fits = i.rx_current_fits;
  tx_length = i.tx_length;
  rx_length = i.rx_length;
})

raised-IsThread : (f : Interface) (s : ThreadStats) → IsThread f s → IsThread (raise_peak f) s
raised-IsThread f s t = rw (raise_peak_lem f) (record {
  tx_covers = t.tx_covers;
  rx_covers = t.rx_covers;
  tx_le = t.tx_le;
  rx_le = t.rx_le;
  tx_current_le = t.tx_current_le;
  rx_current_le = t.rx_current_le;
  tx_history_le = t.tx_history_le;
  rx_history_le = t.rx_history_le;
  tx_length = t.tx_length;
  rx_length = t.rx_length;
})

rotate_totals :
    (f : Interface)
    → ((raise_peak (rotate_interface_second f)).tx_total ≡ f.tx_total)
      × ((raise_peak (rotate_interface_second f)).rx_total ≡ f.rx_total)
rotate_totals f =
    rw (raise_peak_lem (rotate_interface_second f)) (unfold rotate_interface_second in (refl, refl))

rotate_second_kept :
    (s : ThreadStats)
    → ((rotate_second s).tx_bytes_total ≡ s.tx_bytes_total)
      × ((rotate_second s).rx_bytes_total ≡ s.rx_bytes_total)
      × ((rotate_second s).info ≡ s.info)
unfolding rotate_second
rotate_second_kept s = (refl, refl, refl)

-- The one-second tick keeps the counters consistent.
pub rotate-IsConsistent : (c : Counters) → IsConsistent c → IsConsistent (rotate_histories c)
unfolding rotate_histories
rotate-IsConsistent c v = record {
  interface = raised-IsInterface _ (rotate-IsInterface c.interface v.interface);
  peak = rotate-BelowPeak c.interface v.interface v.peak;
  distinct_threads = map_entries-DistinctKeys _ c.threads v.distinct_threads;
  distinct_connections = v.distinct_connections;
  keyed =
      map_entries-AllEntries (λ k s. k ≡ thread_key s.info) _ (λ k s. rotate_second s)
        (λ k s e. e ∙ ap thread_key (sym (rotate_second_kept s).2)) c.threads v.keyed;
  threads =
      map_entries-AllEntries (λ k s. IsThread c.interface s) _ (λ k s. rotate_second s)
        (λ k s t. raised-IsThread _ _ (rotate-IsThread c.interface s v.interface t)) c.threads
        v.threads;
  threads_tx =
      same (sum_by-map_entries _ _ (λ k s. (rotate_second_kept s).0) c.threads) totals.0
        v.threads_tx;
  threads_rx =
      same (sum_by-map_entries _ _ (λ k s. (rotate_second_kept s).1) c.threads) totals.1
        v.threads_rx;
  connections_tx = same refl totals.0 v.connections_tx;
  connections_rx = same refl totals.1 v.connections_rx;
}
  where
    totals :
        ((raise_peak (rotate_interface_second c.interface)).tx_total ≡ c.interface.tx_total)
        × ((raise_peak (rotate_interface_second c.interface)).rx_total ≡ c.interface.rx_total)
    totals = rotate_totals c.interface

    same : {a b m n : ℕ} → a ≡ b → m ≡ n → Within b n → Within a m
    same p q w = rw (p, q) w
