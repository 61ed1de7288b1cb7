-- ===== src/Aggregator/Loop/Kept.antt =====
-- What the two maps hold once a turn has evicted and pruned.
use netmon.Base.{ℕ, ◌-◌, ◌≤◌, ◌≡◌, true, List, arith, leb→le}
use netmon.HashMap.{HashMap, contains_key}
use netmon.HashMap.Entries.{AllEntries, AllEntries_mono, retain-AllEntries}
use netmon.Capture.Types.{FlowRecord}
use netmon.Resolver.Api.{ResolverApi}
use netmon.Aggregator.Types.{ThreadKey, ThreadStats, thread_key_eq}
use netmon.Aggregator.Record.{Counters}
use netmon.Aggregator.Threads.{
  thread_of, is_live, is_kept, mark_exited_threads, evict_stale_threads, prune_connection_stats,
}
use netmon.Aggregator.Loop.{
  Locals, count_received, refresh_connection_cache_if_due, drain_flow_channel,
}

-- Every thread was seen in the last thirty seconds, and so was every connection, whose thread is there.
pub record IsFresh (now : ℕ) (c : Counters) : Type 0 where
  pub threads : AllEntries (λ k s. now - s.last_seen ≤ 30000) c.threads
  pub connections :
      AllEntries
        (λ k s. (now - s.last_seen ≤ 30000) × (contains_key (thread_of k) c.threads ≡ true))
        c.connections

module _ (api : ResolverApi) where
  open api use {Resolver}

  -- Once a turn has counted what it received, no thread and no connection is left that was idle for
  -- more than thirty seconds, and no connection is left without its thread.
  pub count_received-IsFresh :
      (now : ℕ) (received : List FlowRecord) (l : Locals Resolver)
      → IsFresh now (count_received api now received l).counters
  unfolding count_received evict_stale_threads prune_connection_stats
  count_received-IsFresh now received l = record {
    threads =
        AllEntries_mono _ _ (λ k s h. leb→le _ _ h) _ (retain-AllEntries (is_live now) marked);
    connections =
        AllEntries_mono _ _ (λ k s h. ground arith) _
          (retain-AllEntries (is_kept now _) drained.1.connections);
  }
    where
      l1 : Locals Resolver
      l1 = refresh_connection_cache_if_due api now l

      drained : Resolver × Counters
      drained = drain_flow_channel api now received l1.connection_cache (l1.resolver, l1.counters)

      marked : HashMap ThreadKey ThreadStats
      marked = (mark_exited_threads api now drained.1.threads drained.0).0
