-- ===== src/Resolver/Cache/Laws.antt =====
-- The cache as the aggregator's resolver.
use netmon.Base.{
  ℕ, ◌-◌, ◌≡◌, ◌≢◌, refl, ◌∙◌, true, false, ◌&&◌, [], ◌∷◌, Option, none, some, arith, ltb, nat_eq,
  nat_eq_iff, if◌then◌else◌, Bool-cases, Option-cases, inl, inr, ◌==◌, ℕ_eq,
}
use netmon.HashMap.{HashMap, get}
use netmon.Flow.{flow_matches}
use netmon.Capture.Types.{FlowKey, protocol_eq}
use netmon.Resolver.Types.{ProcessInfo}
use netmon.Resolver.Api.{ResolverApi}
use netmon.Resolver.Netlink.{Sockets}
use netmon.Resolver.Netlink.Messages.{query_sockets}
use netmon.Resolver.ProcNet.{read_proc_net}
use netmon.Resolver.PidMap.{InodeMap, build_inode_pid_map}
use netmon.Resolver.Cache.{
  Host, ResolverCache, refresh_period, first_source, refreshed, find_owner, find_pid, refresh,
  refresh_if_needed, resolve_flow_owner, list_connections, process_by_pid,
}

refreshed_twice :
    (o : Option Sockets) (m : InodeMap) (now : ℕ) (c : ResolverCache)
    → (ltb (now - c.last_refresh) refresh_period ≡ false)
    → let c' = refreshed o m now c in
      (if ltb (now - c'.last_refresh) refresh_period then c' else refreshed o m now c') ≡ c'
unfolding refreshed
refreshed_twice none m now c h = rw h refl
refreshed_twice (some sockets) m now c h = rw fresh refl
  where
    fresh : ltb (now - now) refresh_period ≡ true
    fresh = ground arith

find_pid-found :
    (inode : ℕ) (info : ProcessInfo) (m : HashMap ℕ ProcessInfo)
    → get inode m ≡ some info
    → find_pid info.pid m ≢ none
unfolding get find_pid
find_pid-found inode info [] h p = cc
find_pid-found inode info ((i, other) ∷ rest) h p = elim (Bool-cases (nat_eq other.pid info.pid)) [
  | inl y ↦ cc (rw y at p)
  | inr n ↦ elim (Bool-cases (nat_eq i inode)) [
    | inl same ↦ absurd (differs (some_pid (rw same at h)) n)
    | inr other_inode ↦ find_pid-found inode info rest (rw other_inode at h) (rw n at p)
  ]
]
  where
    some_pid : some other ≡ some info → other.pid ≡ info.pid
    some_pid e = cc

    differs : other.pid ≡ info.pid → nat_eq other.pid info.pid ≢ false
    differs e f = ground (arith, (nat_eq_iff other.pid info.pid).1 e)

find_owner-found :
    (flow : FlowKey) (sockets : Sockets) (m : HashMap ℕ ProcessInfo) (info : ProcessInfo)
    → find_owner flow sockets m ≡ some info
    → find_pid info.pid m ≢ none
unfolding find_owner
find_owner-found flow [] m info h = cc
find_owner-found flow ((inode, s) ∷ rest) m info h =
    elim (Bool-cases
      (s.protocol == flow.protocol && flow_matches s.local_addr s.remote_addr flow)) [
        | inl y ↦ elim (Option-cases (get s.inode m)) [
          | inl absent ↦ find_owner-found flow rest m info (rw (y, absent) at h)
          | inr (i, present) ↦ find_pid-found s.inode info m (present ∙ rw (y, present) at h)
        ]
        | inr n ↦ find_owner-found flow rest m info (rw n at h)
      ]

module _ (host : Host) where
  refresh_twice :
      (now : ℕ) (c : ResolverCache)
      → refresh_if_needed host now (refresh_if_needed host now c) ≡ refresh_if_needed host now c
  unfolding refresh_if_needed refresh
  refresh_twice now c = elim (Bool-cases (ltb (now - c.last_refresh) refresh_period)) [
    | inl y ↦ rw (y, y) refl
    | inr n ↦ rw n (
        refreshed_twice
          (first_source (query_sockets (host.kernel now)) (read_proc_net (host.read_to_string now)))
          (build_inode_pid_map (host.proc now)) now c n)
  ]

  -- The owner that the resolver reports for a flow is a process that it knows by its id at the same
  -- time, and asking about another process at that time does not change what it knows.
  pub resolve_flow_owner-known :
      (now : ℕ) (flow : FlowKey) (c : ResolverCache) (info : ProcessInfo) (other : ℕ)
      → (resolve_flow_owner host now flow c).0 ≡ some info
      → ((process_by_pid host now info.pid (resolve_flow_owner host now flow c).1).0 ≢ none)
        × ((process_by_pid host now other (resolve_flow_owner host now flow c).1).1
            ≡ (resolve_flow_owner host now flow c).1)
  unfolding resolve_flow_owner process_by_pid
  resolve_flow_owner-known now flow c info other h = rw (refresh_twice now c) (
    find_owner-found flow (refresh_if_needed host now c).socket_entries
        (refresh_if_needed host now c).inode_to_process info h,
    refl,
  )

  pub known_stays :
      (now pid other : ℕ) (c : ResolverCache)
      → (process_by_pid host now pid c).0 ≢ none
      → (process_by_pid host now pid (process_by_pid host now other c).1).0 ≢ none
  unfolding process_by_pid
  known_stays now pid other c h = rw (refresh_twice now c) h

  -- `Resolver`
  abbrev pub resolver_api : ResolverApi
  resolver_api = record {
    Resolver = ResolverCache;
    refresh_if_needed = refresh_if_needed host;
    resolve_flow_owner = resolve_flow_owner host;
    list_connections = list_connections host;
    process_by_pid = process_by_pid host;
    owner_known = λ now flow r info h. (resolve_flow_owner-known now flow r info 0 h).0;
    known_stays = known_stays;
  }
