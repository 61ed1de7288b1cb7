-- ===== src/Resolver/Cache/Owners.antt =====
-- The two tables that a refresh builds agree on the owners of sockets.
use netmon.Base.{
  ℕ, ◌≡◌, refl, sym, ap, ◌∙◌, [], ◌∷◌, Option, none, some, ℕ_eq, nat_eq, nat_eq_iff, Bool-cases,
  inl, inr, List, Bool, ◌&&◌, ◌==◌, ◌⊎◌, if◌then◌else◌,
}
use netmon.Base.Text.{Text}
use netmon.HashMap.{HashMap, get, insert, or_default}
use netmon.HashMap.Entries.{AllEntries, AllEntries_mono}
use netmon.HashMap.Laws.{get-insert, get-insert_self}
use netmon.Resolver.Types.{ProcessInfo, ResolvedConnection, SocketEntry}
use netmon.Resolver.Netlink.{Sockets}
use netmon.Resolver.PidMap.{InodePidEntry, InodeMap}
use netmon.Capture.Types.{FlowKey, protocol_eq}
use netmon.Flow.{flow_matches}
use netmon.Resolver.Cache.{
  ResolverCache, refreshed, unknown_label, username, find_owner, process_of, unknown_owner,
  build_inode_process_map, build_connections,
}

-- Every socket has its process entry, made from the scan of `/proc`.
pub get-build_inode_process_map :
    (sockets : Sockets) (m : InodeMap) (uid_map : HashMap ℕ Text) (inode : ℕ)
    → get inode (build_inode_process_map sockets m uid_map) ≡ (elim (get inode sockets) [
      | none ↦ none
      | some s ↦ some (process_of uid_map (get inode m))
    ])
unfolding build_inode_process_map get
get-build_inode_process_map [] m uid_map inode = refl
get-build_inode_process_map ((i, s) ∷ rest) m uid_map inode =
    rw (get-insert i inode (process_of uid_map (get i m)) (build_inode_process_map rest m uid_map))
      (elim (Bool-cases (nat_eq i inode)) [
        | inl y ↦ rw (y, (nat_eq_iff i inode).0 y) refl
        | inr n ↦ rw n (get-build_inode_process_map rest m uid_map inode)
      ])

-- A connection between the ends of a flow, in either direction.
abbrev pub is_of_flow : FlowKey → ResolvedConnection → Bool
is_of_flow flow conn =
    conn.protocol == flow.protocol && flow_matches conn.local_addr conn.remote_addr flow

abbrev pub first_of_flow : FlowKey → List ResolvedConnection → Option ResolvedConnection
first_of_flow flow [] = none
first_of_flow flow (conn ∷ rest) =
    let others = first_of_flow flow rest in if is_of_flow flow conn then some conn else others

-- The owner of a flow and a connection that is listed: the same process, and the same user unless no
-- process was found to hold the connection's socket; or neither is there.
abbrev pub AreSameOwner : InodeMap → Option ProcessInfo → Option ResolvedConnection → Type 0
AreSameOwner m none none = Unit {0}
AreSameOwner m none (some conn) = ⊥
AreSameOwner m (some info) none = ⊥
AreSameOwner m (some info) (some conn) =
    (info.pid ≡ conn.pid)
    × (info.tid ≡ conn.tid)
    × (info.name ≡ conn.process)
    × (info.thread_name ≡ conn.thread_name)
    × (((get conn.inode m ≡ none) × (info.uid ≡ 0) × (info.username ≡ unknown_label))
        ⊎ ((info.uid ≡ conn.uid) × (info.username ≡ conn.username)))

same_owner :
    (uid_map : HashMap ℕ Text) (o : Option InodePidEntry) (d : ℕ)
    → let e = or_default o (unknown_owner d) in
      let p = process_of uid_map o in
      (p.pid ≡ e.pid)
      × (p.tid ≡ e.tid)
      × (p.name ≡ e.process_name)
      × (p.thread_name ≡ e.thread_name)
      × (((o ≡ none) × (p.uid ≡ 0) × (p.username ≡ unknown_label))
          ⊎ ((p.uid ≡ e.uid) × (p.username ≡ username uid_map e.uid)))
same_owner uid_map none d = (refl, refl, refl, refl, inl (refl, refl, refl))
same_owner uid_map (some e) d = (refl, refl, refl, refl, inr (refl, refl))

connections-AreSameOwner :
    (sockets : Sockets) (m : InodeMap) (uid_map : HashMap ℕ Text)
    (processes : HashMap ℕ ProcessInfo) (flow : FlowKey)
    → AllEntries
        (λ k s. (k ≡ s.inode) × (get k processes ≡ some (process_of uid_map (get k m))))
        sockets
    → AreSameOwner m
        (find_owner flow sockets processes)
        (first_of_flow flow (build_connections sockets m uid_map))
unfolding build_connections find_owner
connections-AreSameOwner [] m uid_map processes flow h = tt
connections-AreSameOwner ((i, s) ∷ rest) m uid_map processes flow h =
    elim (Bool-cases
      (s.protocol == flow.protocol && flow_matches s.local_addr s.remote_addr flow)) [
        | inl y ↦ rw (y, known) (same_owner uid_map (get s.inode m) s.uid)
        | inr n ↦ rw n (connections-AreSameOwner rest m uid_map processes flow h.1)
      ]
  where
    known : get s.inode processes ≡ some (process_of uid_map (get s.inode m))
    known =
        ap (λ k. get k processes) (sym h.0.0)
        ∙ h.0.1
        ∙ ap (λ k. some (process_of uid_map (get k m))) h.0.0

present :
    (sockets : Sockets) (m : InodeMap) (uid_map : HashMap ℕ Text)
    → AllEntries
        (λ k s.
          get k (build_inode_process_map sockets m uid_map) ≡ some (process_of uid_map (get k m)))
        sockets
unfolding build_inode_process_map
present [] m uid_map = tt
present ((i, s) ∷ rest) m uid_map = (
  get-insert_self i (process_of uid_map (get i m)) (build_inode_process_map rest m uid_map),
  AllEntries_mono
      (λ k s. get k (build_inode_process_map rest m uid_map) ≡ some (process_of uid_map (get k m)))
      (λ k s.
        get k (insert i (process_of uid_map (get i m)) (build_inode_process_map rest m uid_map))
        ≡ some (process_of uid_map (get k m)))
      (λ k s h.
        rw (get-insert i k (process_of uid_map (get i m)) (build_inode_process_map rest m uid_map))
          (elim (Bool-cases (nat_eq i k)) [
            | inl y ↦ rw (y, (nat_eq_iff i k).0 y) refl
            | inr n ↦ rw n h
          ]))
      rest (present rest m uid_map),
)

-- After a refresh from sockets that are keyed by their inodes, a flow resolves to the owner that the
-- list of connections shows for the first connection between the flow's ends, and to nothing if there
-- is no such connection. The user is the same too, except for a socket that no process was found for,
-- whose resolved owner has the user 0 and an unknown name.
pub find_owner-AreSameOwner :
    (sockets : Sockets) (m : InodeMap) (now : ℕ) (c : ResolverCache) (flow : FlowKey)
    → AllEntries (λ k s. k ≡ s.inode) sockets
    → let c' = refreshed (some sockets) m now c in
      AreSameOwner m
        (find_owner flow c'.socket_entries c'.inode_to_process)
        (first_of_flow flow c'.connections)
unfolding refreshed
find_owner-AreSameOwner sockets m now c flow h =
    connections-AreSameOwner sockets m c.uid_map _ flow
      (both _ _ sockets h (present sockets m c.uid_map))
  where
    both :
        (P Q : ℕ → SocketEntry → Type 0) (ms : Sockets)
        → AllEntries P ms
        → AllEntries Q ms
        → AllEntries (λ k s. P k s × Q k s) ms
    both P Q [] a b = tt
    both P Q ((k, s) ∷ ms) a b = ((a.0, b.0), both P Q ms a.1 b.1)
