-- ===== src/Aggregator/Publish/Rows.antt =====
-- The published rows: one for each thread, sorted.
use netmon.Base.{ℕ, ◌≡◌, true, false, List, [], ◌∷◌, arith, All, All-map, Bool-cases, inl, inr}
use mathlib.Core.List.{Perm}
use mathlib.Core.List.Perm
use netmon.HashMap.{HashMap, DistinctKeys}
use netmon.Resolver.Types.{ResolvedConnection}
use netmon.Aggregator.Types.{
  ThreadKey, ConnectionKey, ConnectionStats, ThreadStats, ProcessRow, thread_key_eq,
}
use netmon.Aggregator.Publish.{row_le, insert_row, sort_rows, publish_rows}
use netmon.Aggregator.Publish.Connections.{expected_rows, collect_rows-expected_rows}

abbrev pub IsSortedRows : List ProcessRow → Type 0
IsSortedRows [] = Unit {0}
IsSortedRows (r ∷ rs) = All (λ x. row_le r x ≡ true) rs × IsSortedRows rs

row_le_total : (a b : ProcessRow) → row_le a b ≡ false → row_le b a ≡ true
unfolding row_le
row_le_total a b h = ground arith

row_le_trans : (a b c : ProcessRow) → row_le a b ≡ true → row_le b c ≡ true → row_le a c ≡ true
unfolding row_le
row_le_trans a b c h k = ground arith

All-insert_row :
    (P : ProcessRow → Type 0) (r : ProcessRow) (rs : List ProcessRow)
    → P r
    → All P rs
    → All P (insert_row r rs)
unfolding insert_row
All-insert_row P r [] h a = (h, tt)
All-insert_row P r (x ∷ xs) h a = elim (Bool-cases (row_le r x)) [
  | inl y ↦ rw y (h, a)
  | inr n ↦ rw n (a.0, All-insert_row P r xs h a.1)
]

insert_row-IsSorted :
    (r : ProcessRow) (rs : List ProcessRow) → IsSortedRows rs → IsSortedRows (insert_row r rs)
unfolding insert_row
insert_row-IsSorted r [] s = (tt, tt)
insert_row-IsSorted r (x ∷ xs) s = elim (Bool-cases (row_le r x)) [
  | inl y ↦ rw y ((y, All-map (λ z. row_le_trans r x z y) xs s.0), s)
  | inr n ↦ rw n (
    All-insert_row (λ z. row_le x z ≡ true) r xs (row_le_total r x n) s.0,
    insert_row-IsSorted r xs s.1,
  )
]

sort_rows-IsSorted : (rs : List ProcessRow) → IsSortedRows (sort_rows rs)
unfolding sort_rows
sort_rows-IsSorted [] = tt
sort_rows-IsSorted (r ∷ rs) = insert_row-IsSorted r (sort_rows rs) (sort_rows-IsSorted rs)

insert_row-perm : (r : ProcessRow) (rs : List ProcessRow) → Perm (insert_row r rs) (r ∷ rs)
unfolding insert_row
insert_row-perm r [] = Perm.rfl
insert_row-perm r (x ∷ xs) = elim (Bool-cases (row_le r x)) [
  | inl y ↦ rw y Perm.rfl
  | inr n ↦ rw n (Perm.trans (Perm.cons x (insert_row-perm r xs)) (Perm.swap r x xs))
]

sort_rows-perm : (rs : List ProcessRow) → Perm (sort_rows rs) rs
unfolding sort_rows
sort_rows-perm [] = Perm.rfl
sort_rows-perm (r ∷ rs) =
    Perm.trans (insert_row-perm r (sort_rows rs)) (Perm.cons r (sort_rows-perm rs))

-- The rows published for a map with distinct keys are sorted by process and thread id, and are, up to
-- order, one row for each thread with its counters, whether its process is blocked, and just the
-- cached connections of that thread in the order of the cache.
pub publish_rows-perm :
    (blocked : List ℕ) (threads : HashMap ThreadKey ThreadStats) (cache : List ResolvedConnection)
    (stats : HashMap ConnectionKey ConnectionStats)
    → DistinctKeys threads
    → IsSortedRows (publish_rows blocked threads cache stats)
      × Perm (publish_rows blocked threads cache stats) (expected_rows blocked threads cache stats)
unfolding publish_rows
publish_rows-perm blocked threads cache stats d =
    rw (collect_rows-expected_rows blocked threads cache stats d) (
      sort_rows-IsSorted (expected_rows blocked threads cache stats),
      sort_rows-perm (expected_rows blocked threads cache stats),
    )
