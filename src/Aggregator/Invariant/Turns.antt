-- ===== src/Aggregator/Invariant/Turns.antt =====
-- The aggregator's loop from its start keeps the counters consistent.
use netmon.Base.{
  ℕ, ◌≡◌, refl, List, [], ◌∷◌, arith, Bool-cases, ltb, ◌-◌, inl, inr, replicate, zero, suc,
}
use netmon.Base.Word.{wrapping_add}
use netmon.Capture.Types.{FlowRecord}
use netmon.Resolver.Types.{ResolvedConnection}
use netmon.Resolver.Api.{ResolverApi}
use netmon.Aggregator.Record.{
  Counters, process_record, first_owner, lookup_process_from_connections,
}
use netmon.Aggregator.Rotation.{rotation_period, rotate_histories_if_due}
use netmon.Aggregator.Loop.{
  Locals, Published, Input, new_interface, start_locals, refresh_connection_cache_if_due,
  drain_flow_channel, count_received, turn, run_aggregator_loop,
}
use netmon.Aggregator.Invariant.{IsInterface, BelowPeak, IsConsistent}
use netmon.Aggregator.Invariant.Records.{count_record-IsConsistent}
use netmon.Aggregator.Invariant.Upkeep.{rotate-IsConsistent}
use netmon.Aggregator.Invariant.Eviction.{evict-IsConsistent, prune-IsConsistent}
use netmon.Aggregator.Invariant.Marking.{mark-IsConsistent}

start-IsInterface : IsInterface new_interface
unfolding new_interface
start-IsInterface = record {
  tx_covers = inl (omega arith);
  rx_covers = inl (omega arith);
  tx_fits = omega arith;
  rx_fits = omega arith;
  tx_current_fits = omega arith;
  rx_current_fits = omega arith;
  tx_length = refl;
  rx_length = refl;
}

BelowPeak-zeros : (n : ℕ) → BelowPeak 0 (replicate n 0) (replicate n 0)
unfolding wrapping_add
BelowPeak-zeros zero = tt
BelowPeak-zeros (suc n) = (omega arith, BelowPeak-zeros n)

pub start-IsConsistent :
    {R : Type 0} (now : ℕ) (resolver : R) → IsConsistent (start_locals now resolver).counters
unfolding start_locals
start-IsConsistent now resolver = record {
  interface = start-IsInterface;
  peak = unfold new_interface in BelowPeak-zeros 300;
  distinct_threads = tt;
  distinct_connections = tt;
  keyed = tt;
  threads = tt;
  threads_tx = inl (omega arith);
  threads_rx = inl (omega arith);
  connections_tx = inl (omega arith);
  connections_rx = inl (omega arith);
}

rotate_if_due-IsConsistent :
    (now : ℕ) (c : Counters) (last_rotation : ℕ)
    → IsConsistent c
    → IsConsistent (rotate_histories_if_due now c last_rotation).0
unfolding rotate_histories_if_due
rotate_if_due-IsConsistent now c last_rotation v =
    elim (Bool-cases (ltb (now - last_rotation) rotation_period)) [
      | inl y ↦ rw y v
      | inr n ↦ rw n (rotate-IsConsistent c v)
    ]

module _ (api : ResolverApi) where
  open api use {Resolver, resolve_flow_owner}

  refresh_counters :
      (now : ℕ) (l : Locals Resolver)
      → (refresh_connection_cache_if_due api now l).counters ≡ l.counters
  unfolding refresh_connection_cache_if_due
  refresh_counters now l = ground arith

  process_record-IsConsistent :
      (now : ℕ) (r : FlowRecord) (cache : List ResolvedConnection) (resolver : Resolver)
      (c : Counters)
      → IsConsistent c
      → IsConsistent (process_record api now r cache (resolver, c)).1
  unfolding process_record
  process_record-IsConsistent now r cache resolver c v =
      count_record-IsConsistent now r
        (first_owner (resolve_flow_owner now r.key resolver).0
          (lookup_process_from_connections r.key cache))
        c v

  drain-IsConsistent :
      (now : ℕ) (received : List FlowRecord) (cache : List ResolvedConnection)
      (rc : Resolver × Counters)
      → IsConsistent rc.1
      → IsConsistent (drain_flow_channel api now received cache rc).1
  unfolding drain_flow_channel
  drain-IsConsistent now [] cache rc v = v
  drain-IsConsistent now (r ∷ rest) cache rc v =
      drain-IsConsistent now rest cache (process_record api now r cache rc)
        (process_record-IsConsistent now r cache rc.0 rc.1 v)

  count_received-IsConsistent :
      (now : ℕ) (received : List FlowRecord) (l : Locals Resolver)
      → IsConsistent l.counters
      → IsConsistent (count_received api now received l).counters
  unfolding count_received
  count_received-IsConsistent now received l v =
      let l1 = refresh_connection_cache_if_due api now l in
      let rc = drain_flow_channel api now received l1.connection_cache (l1.resolver, l1.counters) in
      prune-IsConsistent now _ (
        evict-IsConsistent now _ (
          mark-IsConsistent api now rc.1 rc.0 (
            drain-IsConsistent now received l1.connection_cache (l1.resolver, l1.counters)
              (rw (refresh_counters now l) v))))

  turn-IsConsistent :
      (i : Input) (s : Locals Resolver × Published)
      → IsConsistent s.0.counters
      → IsConsistent (turn api i s).0.counters
  unfolding turn
  turn-IsConsistent i s v =
      rotate_if_due-IsConsistent i.now _ _ (count_received-IsConsistent i.now i.received s.0 v)

  run-IsConsistent :
      (is : List Input) (s : Locals Resolver × Published)
      → IsConsistent s.0.counters
      → IsConsistent (run_aggregator_loop api is s).0.counters
  unfolding run_aggregator_loop
  run-IsConsistent [] s v = v
  run-IsConsistent (i ∷ is) s v = run-IsConsistent is (turn api i s) (turn-IsConsistent i s v)

  -- However many turns the aggregator makes and whatever they receive, its counters are consistent:
  -- each total covers its current second and its 300 samples or stands at the largest u64; the bytes
  -- of all threads, and of all connections, are within those of the interface or the interface's
  -- total stands there; no thread exceeds the interface, in total or in any second; the peak is no
  -- lower than the bandwidth of any second in the histories; and keys are distinct.
  pub run_aggregator_loop-IsConsistent :
      (is : List Input) (now : ℕ) (resolver : Resolver) (p : Published)
      → IsConsistent (run_aggregator_loop api is (start_locals now resolver, p)).0.counters
  run_aggregator_loop-IsConsistent is now resolver p =
      run-IsConsistent is _ (start-IsConsistent now resolver)
