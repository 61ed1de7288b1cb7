-- ===== src/Aggregator/Record/Lookup.antt =====
-- The fallback lookup finds the first cached connection of the flow, seen from either end.
use netmon.Base.{
  Bool, ◌≡◌, ◌⊎◌, inl, inr, ◌&&◌, true, List, [], ◌∷◌, ◌++◌, Option, none, some, arith, ◌==◌, ℕ_eq,
  Bool-cases, All,
}
use netmon.Net.{SocketAddr, ip_eq}
use netmon.Capture.Types.{FlowKey, protocol_eq}
use netmon.Flow.{ends_match, reversed, flow_matches}
use netmon.Resolver.Types.{ProcessInfo, ResolvedConnection}
use netmon.Aggregator.Record.{owner_of, lookup_process_from_connections}

-- The two ends of a flow as socket addresses.
abbrev pub source : FlowKey → SocketAddr
source flow = record { ip = flow.src_ip; port = flow.src_port }

abbrev pub destination : FlowKey → SocketAddr
destination flow = record { ip = flow.dst_ip; port = flow.dst_port }

-- A socket carries a flow when it joins the flow's two ends, in either order.
abbrev pub Carries : SocketAddr → SocketAddr → FlowKey → Type 0
Carries local remote flow =
    ((local ≡ source flow) × (remote ≡ destination flow))
    ⊎ ((local ≡ destination flow) × (remote ≡ source flow))

abbrev pub CarriesFlow : ResolvedConnection → FlowKey → Type 0
CarriesFlow conn flow =
    (conn.protocol ≡ flow.protocol) × Carries conn.local_addr conn.remote_addr flow

ends_match-eq :
    (l r : SocketAddr) (flow : FlowKey)
    → ends_match l r flow ≡ true
    → (l ≡ source flow) × (r ≡ destination flow)
ends_match-eq l r flow h =
    ground (arith, ip_eq.eqb_iff l.ip flow.src_ip, ip_eq.eqb_iff r.ip flow.dst_ip)

eq-ends_match :
    (l r : SocketAddr) (flow : FlowKey)
    → l ≡ source flow
    → r ≡ destination flow
    → ends_match l r flow ≡ true
eq-ends_match l r flow h k =
    ground (arith, ip_eq.eqb_iff l.ip flow.src_ip, ip_eq.eqb_iff r.ip flow.dst_ip)

flow_matches-Carries :
    (l r : SocketAddr) (flow : FlowKey) → flow_matches l r flow ≡ true → Carries l r flow
unfolding flow_matches
flow_matches-Carries l r flow h = elim (Bool-cases (ends_match l r flow)) [
  | inl y ↦ inl (ends_match-eq l r flow y)
  | inr n ↦ inr (ends_match-eq l r (reversed flow) (rw n at h))
]

Carries-flow_matches :
    (l r : SocketAddr) (flow : FlowKey) → Carries l r flow → flow_matches l r flow ≡ true
unfolding flow_matches
Carries-flow_matches l r flow (inl (h, k)) = rw (eq-ends_match l r flow h k)
Carries-flow_matches l r flow (inr (h, k)) = elim (Bool-cases (ends_match l r flow)) [
  | inl y ↦ rw y
  | inr n ↦ rw n (eq-ends_match l r (reversed flow) h k)
]

-- The result of a search through the cache for the first connection that carries the flow.
pub data FirstOwner (flow : FlowKey) : List ResolvedConnection → Option ProcessInfo → Type 0 where
  found :
      (before : List ResolvedConnection) (conn : ResolvedConnection)
      (after : List ResolvedConnection)
      → All (λ c. ¬ CarriesFlow c flow) before
      → CarriesFlow conn flow
      → FirstOwner flow (before ++ (conn ∷ after)) (some (owner_of conn))
  missing :
      (cache : List ResolvedConnection)
      → All (λ c. ¬ CarriesFlow c flow) cache
      → FirstOwner flow cache none

skip_one :
    (flow : FlowKey) (conn : ResolvedConnection) (cache : List ResolvedConnection)
    (o : Option ProcessInfo)
    → ¬ CarriesFlow conn flow
    → FirstOwner flow cache o
    → FirstOwner flow (conn ∷ cache) o
skip_one flow conn _ o n (found before c after h k) = found (conn ∷ before) c after (n, h) k
skip_one flow conn _ o n (missing cache h) = missing (conn ∷ cache) (n, h)

test : FlowKey → ResolvedConnection → Bool
test flow conn =
    conn.protocol == flow.protocol && flow_matches conn.local_addr conn.remote_addr flow

test-CarriesFlow :
    (flow : FlowKey) (conn : ResolvedConnection) → test flow conn ≡ true → CarriesFlow conn flow
unfolding test
test-CarriesFlow flow conn h = elim (Bool-cases (conn.protocol == flow.protocol)) [
  | inl y ↦ ((protocol_eq.eqb_iff _ _).0 y, flow_matches-Carries _ _ flow (rw y at h))
  | inr n ↦ cc (n, h)
]

CarriesFlow-test :
    (flow : FlowKey) (conn : ResolvedConnection) → CarriesFlow conn flow → test flow conn ≡ true
unfolding test
CarriesFlow-test flow conn (p, h) = rw (
  (protocol_eq.eqb_iff conn.protocol flow.protocol).1 p,
  Carries-flow_matches conn.local_addr conn.remote_addr flow h,
)

-- The fallback reports the owner of the first cached connection of the same protocol whose two ends
-- are those of the flow in either order, and nothing exactly when the cache has none.
pub lookup_process_from_connections-FirstOwner :
    (flow : FlowKey) (cache : List ResolvedConnection)
    → FirstOwner flow cache (lookup_process_from_connections flow cache)
unfolding lookup_process_from_connections test
lookup_process_from_connections-FirstOwner flow [] = missing [] tt
lookup_process_from_connections-FirstOwner flow (conn ∷ rest) = elim (Bool-cases (test flow conn)) [
  | inl y ↦ rw y (found [] conn rest tt (test-CarriesFlow flow conn y))
  | inr n ↦ rw n (
      skip_one flow conn rest _ (λ c. cc (n, CarriesFlow-test flow conn c))
        (lookup_process_from_connections-FirstOwner flow rest))
]
