-- ===== src/Aggregator/Invariant/Marking.antt =====
-- Marking threads as exited changes their names only.
use netmon.Base.{ℕ, ◌≡◌, refl, ap, ◌∙◌, [], ◌∷◌, none, arith, Bool-cases, nat_eq, inl, inr, ◌==◌}
use netmon.Base.Text.{Text}
use netmon.HashMap.{HashMap, get, DistinctKeys}
use netmon.HashMap.Entries.{AllEntries}
use netmon.HashMap.Sums.{sum_by}
use netmon.Resolver.Api.{ResolverApi}
use netmon.Aggregator.Types.{ThreadKey, ThreadStats, thread_key_eq}
use netmon.Aggregator.Record.{Counters}
use netmon.Aggregator.Threads.{marked_name, rename, mark_entry, mark_exited_threads}
use netmon.Aggregator.Invariant.{IsThread, IsConsistent}

module _ (api : ResolverApi) where
  open api use {Resolver, process_by_pid}

  mark_entry_lem :
      (now : ℕ) (key : ThreadKey) (s : ThreadStats) (r : Resolver)
      → (name : Text) × ((mark_entry api now key s r).0 ≡ rename s name)
  unfolding mark_entry
  mark_entry_lem now key s r = elim (Bool-cases (nat_eq key.pid 0)) [
    | inl y ↦ (s.info.name, rw y refl)
    | inr n ↦ (marked_name (process_by_pid now key.pid r).0 s.info.name, rw n refl)
  ]

  mark-AllEntries :
      (P : ThreadKey → ThreadStats → Type 0)
      → ((k : ThreadKey) (s : ThreadStats) (name : Text) → P k s → P k (rename s name))
      → (now : ℕ) (m : HashMap ThreadKey ThreadStats) (r : Resolver) → AllEntries P m
      → AllEntries P (mark_exited_threads api now m r).0
  unfolding mark_exited_threads
  mark-AllEntries P h now [] r a = tt
  mark-AllEntries P h now ((k, s) ∷ m) r a =
      let (name, p) = mark_entry_lem now k s r in
      (rw p (h k s name a.0), mark-AllEntries P h now m (mark_entry api now k s r).1 a.1)

  get-mark_none :
      (now : ℕ) (k : ThreadKey) (m : HashMap ThreadKey ThreadStats) (r : Resolver)
      → get k m ≡ none
      → get k (mark_exited_threads api now m r).0 ≡ none
  unfolding mark_exited_threads get
  get-mark_none now k [] r h = refl
  get-mark_none now k ((j, s) ∷ m) r h = elim (Bool-cases (j == k)) [
    | inl y ↦ cc (rw y at h)
    | inr n ↦ rw n (get-mark_none now k m (mark_entry api now j s r).1 (rw n at h))
  ]

  mark-DistinctKeys :
      (now : ℕ) (m : HashMap ThreadKey ThreadStats) (r : Resolver)
      → DistinctKeys m
      → DistinctKeys (mark_exited_threads api now m r).0
  unfolding mark_exited_threads
  mark-DistinctKeys now [] r d = tt
  mark-DistinctKeys now ((k, s) ∷ m) r d = (
    get-mark_none now k m (mark_entry api now k s r).1 d.0,
    mark-DistinctKeys now m (mark_entry api now k s r).1 d.1,
  )

  sum_by-mark :
      (g : ThreadStats → ℕ)
      → ((s : ThreadStats) (name : Text) → g (rename s name) ≡ g s)
      → (now : ℕ) (m : HashMap ThreadKey ThreadStats) (r : Resolver)
      → sum_by g (mark_exited_threads api now m r).0 ≡ sum_by g m
  unfolding mark_exited_threads
  sum_by-mark g h now [] r = refl
  sum_by-mark g h now ((k, s) ∷ m) r =
      let (name, p) = mark_entry_lem now k s r in
      let q : g (mark_entry api now k s r).0 ≡ g s = ap g p ∙ h s name in
      omega (arith, q, sum_by-mark g h now m (mark_entry api now k s r).1)

  -- Marking keeps the counters consistent.
  pub mark-IsConsistent :
      (now : ℕ) (c : Counters) (r : Resolver)
      → IsConsistent c
      → IsConsistent (record c { threads = (mark_exited_threads api now c.threads r).0 })
  mark-IsConsistent now c r v = record {
    interface = v.interface;
    peak = v.peak;
    distinct_threads = mark-DistinctKeys now c.threads r v.distinct_threads;
    distinct_connections = v.distinct_connections;
    keyed = mark-AllEntries _ (λ k s name e. e) now c.threads r v.keyed;
    threads =
        mark-AllEntries (λ k s. IsThread c.interface s)
          (λ k s name t. record {
            tx_covers = t.tx_covers;
            rx_covers = t.rx_covers;
            tx_le = t.tx_le;
            rx_le = t.rx_le;
            tx_current_le = t.tx_current_le;
            rx_current_le = t.rx_current_le;
            tx_history_le = t.tx_history_le;
            rx_history_le = t.rx_history_le;
            tx_length = t.tx_length;
            rx_length = t.rx_length;
          })
          now c.threads r v.threads;
    threads_tx =
        rw (sum_by-mark (λ s. s.tx_bytes_total) (λ s name. refl) now c.threads r) v.threads_tx;
    threads_rx =
        rw (sum_by-mark (λ s. s.rx_bytes_total) (λ s name. refl) now c.threads r) v.threads_rx;
    connections_tx = v.connections_tx;
    connections_rx = v.connections_rx;
  }
