-- ===== src/Resolver/OneShot.antt =====
-- A resolver made for one question: `Resolver::new`, `lookup`, `resolve` and
-- `scan_connections_for_pid` of crates/resolver/src/lib.rs. The host is a parameter.
use netmon.Base.{ℕ, List, [], ◌∷◌, Option, none, some, nat_eq, if◌then◌else◌, ℕ_eq}
use netmon.Base.Text.{Text}
use netmon.HashMap.{get}
use netmon.Capture.Types.{FlowKey}
use netmon.Resolver.Types.{ProcessInfo, ResolvedConnection}
use netmon.Resolver.Cache.{
  Host, ResolverCache, new_cache, refresh_if_needed, resolve_flow_owner, list_connections,
}

-- `/etc/passwd` may not open.
unfoldable pub new : ℕ → Option (List (Option Text)) → Option ResolverCache
new now none = none
new now (some passwd) = some (new_cache now passwd)

unfoldable pub lookup : ℕ → ResolverCache → Option ProcessInfo
lookup inode c = get inode c.inode_to_process

unfoldable pub filter_pid : ℕ → List ResolvedConnection → List ResolvedConnection
filter_pid pid [] = []
filter_pid pid (connection ∷ rest) =
    let others = filter_pid pid rest in
    if nat_eq connection.pid pid then connection ∷ others else others

module _ (host : Host) (passwd : Option (List (Option Text))) where
  unfoldable pub resolve : ℕ → FlowKey → Option ProcessInfo
  resolve now flow = elim (new now passwd) [
    | none ↦ none
    | some c ↦ (resolve_flow_owner host now flow (refresh_if_needed host now c)).0
  ]

  unfoldable pub scan_connections_for_pid : ℕ → ℕ → List ResolvedConnection
  scan_connections_for_pid now pid = elim (new now passwd) [
    | none ↦ []
    | some c ↦ filter_pid pid (list_connections host now (refresh_if_needed host now c)).0
  ]
