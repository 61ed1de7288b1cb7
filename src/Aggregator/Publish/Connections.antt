-- ===== src/Aggregator/Publish/Connections.antt =====
-- Which connections the row of a thread shows.
use netmon.Base.{
  ℕ, ◌≡◌, refl, sym, ap, ◌∙◌, false, List, [], ◌∷◌, ◌++◌, none, arith, ◌==◌, if◌then◌else◌,
  Bool-cases, inl, inr,
}
use mathlib.Core.List.{append-nil, append_assoc}
use netmon.HashMap.{HashMap, get, remove, upsert, or_default, DistinctKeys}
use netmon.HashMap.Laws.{get-upsert, get-remove, upsert-DistinctKeys, remove-DistinctKeys}
use netmon.Resolver.Types.{ResolvedConnection}
use netmon.Aggregator.Types.{
  ThreadKey, ConnectionKey, ConnectionStats, ThreadStats, ProcessRow, ConnectionEntry,
  thread_key_eq,
}
use netmon.Aggregator.Publish.{
  ConnByThread, conn_thread, connection_entry, group_connections, process_row, collect_rows,
}

-- The connections of a thread in the order of the cache.
abbrev pub connections_of :
    HashMap ConnectionKey ConnectionStats
    → ThreadKey
    → List ResolvedConnection
    → List ConnectionEntry
connections_of stats key [] = []
connections_of stats key (conn ∷ rest) =
    let others = connections_of stats key rest in
    if conn_thread conn == key then connection_entry stats conn ∷ others else others

-- The rows in the order of the map.
abbrev pub expected_rows :
    List ℕ
    → HashMap ThreadKey ThreadStats
    → List ResolvedConnection
    → HashMap ConnectionKey ConnectionStats
    → List ProcessRow
expected_rows blocked [] cache stats = []
expected_rows blocked ((key, s) ∷ m) cache stats =
    process_row blocked key s (connections_of stats key cache) ∷ expected_rows blocked m cache stats

abbrev pub listed : ThreadKey → ConnByThread → List ConnectionEntry
listed key by_thread = or_default (get key by_thread) []

listed-group :
    (stats : HashMap ConnectionKey ConnectionStats) (key : ThreadKey)
    (cache : List ResolvedConnection) (by_thread : ConnByThread)
    → listed key (group_connections stats cache by_thread)
      ≡ listed key by_thread ++ connections_of stats key cache
unfolding group_connections
listed-group stats key [] by_thread = sym (append-nil (listed key by_thread))
listed-group stats key (conn ∷ rest) by_thread = elim (Bool-cases (conn_thread conn == key)) [
  | inl y ↦
      rw
        (
          listed-group stats key rest (upsert (conn_thread conn) [] push by_thread),
          get-upsert (conn_thread conn) key [] push by_thread,
          y,
          (thread_key_eq.eqb_iff (conn_thread conn) key).0 y,
        )
        (append_assoc (listed key by_thread) (connection_entry stats conn ∷ [])
          (connections_of stats key rest))
  | inr n ↦
      rw
        (
          listed-group stats key rest (upsert (conn_thread conn) [] push by_thread),
          get-upsert (conn_thread conn) key [] push by_thread,
          n,
        )
        refl
]
  where
    push : List ConnectionEntry → List ConnectionEntry
    push es = es ++ (connection_entry stats conn ∷ [])

group-DistinctKeys :
    (stats : HashMap ConnectionKey ConnectionStats) (cache : List ResolvedConnection)
    (by_thread : ConnByThread)
    → DistinctKeys by_thread
    → DistinctKeys (group_connections stats cache by_thread)
unfolding group_connections
group-DistinctKeys stats [] by_thread d = d
group-DistinctKeys stats (conn ∷ rest) by_thread d =
    group-DistinctKeys stats rest _ (upsert-DistinctKeys _ _ _ by_thread d)

rows_of : List ℕ → HashMap ThreadKey ThreadStats → ConnByThread → List ProcessRow
rows_of blocked [] by_thread = []
rows_of blocked ((key, s) ∷ m) by_thread =
    process_row blocked key s (listed key by_thread) ∷ rows_of blocked m by_thread

-- Taking out the connections of a thread that the map does not have changes no row.
rows_of-remove :
    (blocked : List ℕ) (key : ThreadKey) (m : HashMap ThreadKey ThreadStats)
    (by_thread : ConnByThread)
    → DistinctKeys by_thread
    → get key m ≡ none
    → rows_of blocked m (remove key by_thread) ≡ rows_of blocked m by_thread
unfolding rows_of get
rows_of-remove blocked key [] by_thread d h = refl
rows_of-remove blocked key ((j, s) ∷ m) by_thread d h = elim (Bool-cases (j == key)) [
  | inl y ↦ cc (rw y at h)
  | inr n ↦
      let ne : (key == j) ≡ false =
        ground (arith, thread_key_eq.eqb_iff key j, thread_key_eq.eqb_iff j key) in
      rw (get-remove key j by_thread d, ne, rows_of-remove blocked key m by_thread d (rw n at h))
        refl
]

collect_rows-rows_of :
    (blocked : List ℕ) (m : HashMap ThreadKey ThreadStats) (by_thread : ConnByThread)
    → DistinctKeys m
    → DistinctKeys by_thread
    → collect_rows blocked m by_thread ≡ rows_of blocked m by_thread
unfolding collect_rows rows_of
collect_rows-rows_of blocked [] by_thread d e = refl
collect_rows-rows_of blocked ((key, s) ∷ m) by_thread d e =
    ap (◌∷◌ (process_row blocked key s (listed key by_thread))) (
      collect_rows-rows_of blocked m (remove key by_thread) d.1
        (remove-DistinctKeys key by_thread e)
      ∙ rows_of-remove blocked key m by_thread e d.0)

rows_of-group :
    (blocked : List ℕ) (m : HashMap ThreadKey ThreadStats) (cache : List ResolvedConnection)
    (stats : HashMap ConnectionKey ConnectionStats)
    → rows_of blocked m (group_connections stats cache []) ≡ expected_rows blocked m cache stats
unfolding rows_of get
rows_of-group blocked [] cache stats = refl
rows_of-group blocked ((key, s) ∷ m) cache stats =
    rw (listed-group stats key cache [], rows_of-group blocked m cache stats) refl

pub collect_rows-expected_rows :
    (blocked : List ℕ) (m : HashMap ThreadKey ThreadStats) (cache : List ResolvedConnection)
    (stats : HashMap ConnectionKey ConnectionStats)
    → DistinctKeys m
    → collect_rows blocked m (group_connections stats cache [])
      ≡ expected_rows blocked m cache stats
collect_rows-expected_rows blocked m cache stats d =
    collect_rows-rows_of blocked m _ d (group-DistinctKeys stats cache [] tt)
    ∙ rows_of-group blocked m cache stats
