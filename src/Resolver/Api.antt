-- ===== src/Resolver/Api.antt =====
-- What the aggregator uses of `Resolver` (crates/resolver/src/lib.rs): its four methods, each at a
-- time, and the laws that the aggregator's own guarantees need.
use netmon.Base.{ℕ, ◌≡◌, ◌≢◌, List, Option, none, some}
use netmon.Capture.Types.{FlowKey}
use netmon.Resolver.Types.{ProcessInfo, ResolvedConnection}

pub record ResolverApi : Type 1 where
  pub Resolver : Type 0
  pub refresh_if_needed : ℕ → Resolver → Resolver
  pub resolve_flow_owner : ℕ → FlowKey → Resolver → Option ProcessInfo × Resolver
  pub list_connections : ℕ → Resolver → List ResolvedConnection × Resolver
  pub process_by_pid : ℕ → ℕ → Resolver → Option ProcessInfo × Resolver
  -- An owner that was just reported is known by its process id.
  pub owner_known :
      (now : ℕ) (flow : FlowKey) (r : Resolver) (info : ProcessInfo)
      → (resolve_flow_owner now flow r).0 ≡ some info
      → (process_by_pid now info.pid (resolve_flow_owner now flow r).1).0 ≢ none
  -- Asking for another process at the same time does not forget it.
  pub known_stays :
      (now pid other : ℕ) (r : Resolver)
      → (process_by_pid now pid r).0 ≢ none
      → (process_by_pid now pid (process_by_pid now other r).1).0 ≢ none
