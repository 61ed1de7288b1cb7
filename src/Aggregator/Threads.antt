-- ===== src/Aggregator/Threads.antt =====
-- Upkeep of the two maps: `mark_exited_threads`, `evict_stale_threads` and
-- `prune_connection_stats` of crates/aggregator/src/lib.rs. `elapsed` is `now - last_seen`, which
-- stops at 0 as `Instant::elapsed` does.
pub mod Exited
use netmon.Base.{
  ℕ, ◌-◌, Bool, true, false, ◌&&◌, List, [], ◌∷◌, ◌++◌, Option, none, some, leb, nat_eq,
  if◌then◌else◌,
}
use netmon.Base.Text.{Text, ends_with}
use netmon.HashMap.{HashMap, retain, contains_key}
use netmon.Resolver.Types.{ProcessInfo}
use netmon.Resolver.Api.{ResolverApi}
use netmon.Aggregator.Types.{
  ThreadKey, ConnectionKey, ConnectionStats, ThreadStats, process_eviction_timeout, exited_suffix,
  thread_key_eq,
}

-- `if process.is_none() && !name.ends_with(" [exited]") { name += " [exited]" }`
unfoldable pub marked_name : Option ProcessInfo → Text → Text
marked_name none name = if ends_with exited_suffix name then name else name ++ exited_suffix
marked_name (some info) name = name

abbrev pub rename : ThreadStats → Text → ThreadStats
rename s name =
    let info = s.info in
    record s {
      info = record {
        pid = info.pid;
        tid = info.tid;
        name = name;
        thread_name = info.thread_name;
        uid = info.uid;
        username = info.username;
      };
    }

module _ (api : ResolverApi) where
  open api use {Resolver, process_by_pid}

  -- One round of the loop over the map; process 0 stands for unknown owners and is left out.
  unfoldable pub mark_entry : ℕ → ThreadKey → ThreadStats → Resolver → ThreadStats × Resolver
  mark_entry now key s r =
      if nat_eq key.pid 0
      then (s, r)
      else (let (process, r') = process_by_pid now key.pid r in
          (rename s (marked_name process s.info.name), r'))

  unfoldable pub mark_exited_threads :
      ℕ → HashMap ThreadKey ThreadStats → Resolver → HashMap ThreadKey ThreadStats × Resolver
  mark_exited_threads now [] r = ([], r)
  mark_exited_threads now ((key, s) ∷ m) r =
      let (s', r') = mark_entry now key s r in
      let (m', r'') = mark_exited_threads now m r' in ((key, s') ∷ m', r'')

abbrev pub is_live : ℕ → ThreadKey → ThreadStats → Bool
is_live now key s = leb (now - s.last_seen) process_eviction_timeout

unfoldable pub evict_stale_threads :
    ℕ → HashMap ThreadKey ThreadStats → HashMap ThreadKey ThreadStats
evict_stale_threads now threads = retain (is_live now) threads

abbrev pub thread_of : ConnectionKey → ThreadKey
thread_of key = record { pid = key.pid; tid = key.tid }

abbrev pub is_kept : ℕ → HashMap ThreadKey ThreadStats → ConnectionKey → ConnectionStats → Bool
is_kept now threads key c =
    if leb (now - c.last_seen) process_eviction_timeout
    then contains_key (thread_of key) threads
    else false

unfoldable pub prune_connection_stats :
    ℕ
    → HashMap ThreadKey ThreadStats
    → HashMap ConnectionKey ConnectionStats
    → HashMap ConnectionKey ConnectionStats
prune_connection_stats now threads connections = retain (is_kept now threads) connections
