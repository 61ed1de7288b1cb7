-- ===== src/Gui/Sort/Sorted.antt =====
-- The process table is sorted by the chosen column and direction.
use mathlib.Core.List.{Perm}
use mathlib.Core.List.Perm
use Prim.Native.Nat.{Ordering}
use netmon.Base.{◌≡◌, Bool, false, List, [], ◌∷◌, All, All-map, if_cases}
use netmon.Aggregator.Types.{ProcessRow}
use netmon.Gui.Types.{SortColumn, NetmonApp}
use netmon.Gui.Sort.{cmp_rows, is_gt, insert_by, sort_by, sorted_rows}
use netmon.Gui.Sort.Column.{IsInOrder, cmp_rows-InOrder}
use netmon.Gui.Sort.Order.{cmp_rows_total, cmp_rows_trans}

-- No row compares greater than a later one.
abbrev IsSortedBy : (ProcessRow → ProcessRow → Ordering) → List ProcessRow → Type 0
IsSortedBy cmp [] = Unit {0}
IsSortedBy cmp (r ∷ rs) = All (λ x. is_gt (cmp r x) ≡ false) rs × IsSortedBy cmp rs

IsSortedBy-IsInOrder :
    (c : SortColumn) (up : Bool) (rs : List ProcessRow)
    → IsSortedBy (cmp_rows c up) rs
    → IsInOrder c up rs
IsSortedBy-IsInOrder c up [] s = tt
IsSortedBy-IsInOrder c up (r ∷ rs) s =
    (All-map (cmp_rows-InOrder c up r) rs s.0, IsSortedBy-IsInOrder c up rs s.1)

insert_by-Perm :
    (cmp : ProcessRow → ProcessRow → Ordering) (r : ProcessRow) (rs : List ProcessRow)
    → Perm (insert_by cmp r rs) (r ∷ rs)
unfolding insert_by
insert_by-Perm cmp r [] = Perm.rfl
insert_by-Perm cmp r (x ∷ xs) =
    if_cases (λ l. Perm l (r ∷ (x ∷ xs))) (is_gt (cmp r x)) _ _
      (λ y. Perm.trans (Perm.cons x (insert_by-Perm cmp r xs)) (Perm.swap r x xs)) (λ n. Perm.rfl)

sort_by-Perm :
    (cmp : ProcessRow → ProcessRow → Ordering) (rs : List ProcessRow) → Perm (sort_by cmp rs) rs
unfolding sort_by
sort_by-Perm cmp [] = Perm.rfl
sort_by-Perm cmp (r ∷ rs) =
    Perm.trans (insert_by-Perm cmp r (sort_by cmp rs)) (Perm.cons r (sort_by-Perm cmp rs))

module _ (c : SortColumn) (up : Bool) where
  All-insert_by :
      (P : ProcessRow → Type 0) (r : ProcessRow) (rs : List ProcessRow)
      → P r
      → All P rs
      → All P (insert_by (cmp_rows c up) r rs)
  unfolding insert_by
  All-insert_by P r [] h a = (h, tt)
  All-insert_by P r (x ∷ xs) h a =
      if_cases (All P) (is_gt (cmp_rows c up r x)) _ _ (λ y. (a.0, All-insert_by P r xs h a.1))
        (λ n. (h, a))

  insert_by-IsSortedBy :
      (r : ProcessRow) (rs : List ProcessRow)
      → IsSortedBy (cmp_rows c up) rs
      → IsSortedBy (cmp_rows c up) (insert_by (cmp_rows c up) r rs)
  unfolding insert_by
  insert_by-IsSortedBy r [] s = (tt, tt)
  insert_by-IsSortedBy r (x ∷ xs) s =
      if_cases (IsSortedBy (cmp_rows c up)) (is_gt (cmp_rows c up r x)) _ _
        (λ y. (
          All-insert_by (λ z. is_gt (cmp_rows c up x z) ≡ false) r xs (cmp_rows_total c up r x y)
              s.0,
          insert_by-IsSortedBy r xs s.1,
        ))
        (λ n. ((n, All-map (λ z. cmp_rows_trans c up r x z n) xs s.0), s))

  sort_by-IsSortedBy :
      (rs : List ProcessRow) → IsSortedBy (cmp_rows c up) (sort_by (cmp_rows c up) rs)
  unfolding sort_by
  sort_by-IsSortedBy [] = tt
  sort_by-IsSortedBy (r ∷ rs) = insert_by-IsSortedBy r _ (sort_by-IsSortedBy rs)

-- The process table shows the given rows, each as often as it was given, in the order of the chosen
-- column, upwards or downwards as chosen: numbers by size, texts (and the summary of the protocols)
-- character by character, and rates by the average of the two newest samples.
pub sorted_rows-IsInOrder :
    (a : NetmonApp) (rows : List ProcessRow)
    → IsInOrder a.sort_column a.sort_ascending (sorted_rows a rows) × Perm (sorted_rows a rows) rows
unfolding sorted_rows
sorted_rows-IsInOrder a rows = (
  IsSortedBy-IsInOrder a.sort_column a.sort_ascending _
      (sort_by-IsSortedBy a.sort_column a.sort_ascending rows),
  sort_by-Perm _ rows,
)
