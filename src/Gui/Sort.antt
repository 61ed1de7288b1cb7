-- ===== src/Gui/Sort.antt =====
-- The order of the process table: `sorted_rows` and `set_sort` of crates/gui/src/main.rs.
pub mod Order
pub mod Column
pub mod Sorted
use Prim.Native.Nat.{compare, Ordering}
use mathlib.Core.Bool.{decide}
use netmon.Base.{
  ℕ, zero, suc, ◌+◌, ◌/◌, ◌%◌, ◌^◌, Bool, true, false, not, List, [], ◌∷◌, ◌++◌, take,
  if◌then◌else◌, PartialEq, ◌==◌, of_discrete,
}
use netmon.Base.Text.{Text, text}
use netmon.Base.Numbers.{decimal}
use netmon.Capture.Types.{Protocol, tcp, udp, other}
use netmon.Aggregator.Types.{ConnectionEntry, ProcessRow}
use netmon.Aggregator.History.{wrapping_sum}
use netmon.Gui.Types.{
  SortColumn, pid, tid, process, thread, user, protocol_mix, tx_rate, rx_rate, tx_total, rx_total,
  SortColumn-discrete, NetmonApp,
}

abbrev short_rate_window_seconds : ℕ
short_rate_window_seconds = 2

unfoldable pub two_second_avg : List ℕ → ℕ
unfolding wrapping_sum
two_second_avg history =
    wrapping_sum (take short_rate_window_seconds history) / short_rate_window_seconds

-- `n += 1` of a `u32`
abbrev next : ℕ → ℕ
next n = (n + 1) % 2 ^ 32

-- The connections of each protocol: TCP, UDP, and others.
unfoldable pub count_protocols : List ConnectionEntry → ℕ → ℕ → ℕ → ℕ × ℕ × ℕ
count_protocols [] t u o = (t, u, o)
count_protocols (conn ∷ rest) t u o = elim conn.protocol [
  | tcp ↦ count_protocols rest (next t) u o
  | udp ↦ count_protocols rest t (next u) o
  | other n ↦ count_protocols rest t u (next o)
]

unfoldable pub protocol_mix_summary : ProcessRow → Text
protocol_mix_summary row =
    let (t, u, o) = count_protocols row.connections 0 0 0 in
    text "T:" ++ (decimal t ++ (text " U:" ++ (decimal u ++ (text " O:" ++ decimal o))))

abbrev pub then_cmp : Ordering → Ordering → Ordering
then_cmp Ordering.lt o = Ordering.lt
then_cmp Ordering.eq o = o
then_cmp Ordering.gt o = Ordering.gt

-- `a.cmp(b)` of two strings
unfoldable pub cmp_text : Text → Text → Ordering
cmp_text [] [] = Ordering.eq
cmp_text [] (b ∷ t) = Ordering.lt
cmp_text (a ∷ s) [] = Ordering.gt
cmp_text (a ∷ s) (b ∷ t) = then_cmp (compare a b) (cmp_text s t)

unfoldable pub cmp_column : SortColumn → ProcessRow → ProcessRow → Ordering
cmp_column pid a b = compare a.info.pid b.info.pid
cmp_column process a b = cmp_text a.info.name b.info.name
cmp_column user a b = cmp_text a.info.username b.info.username
cmp_column protocol_mix a b = cmp_text (protocol_mix_summary a) (protocol_mix_summary b)
cmp_column tx_rate a b = compare (two_second_avg a.tx_history) (two_second_avg b.tx_history)
cmp_column rx_rate a b = compare (two_second_avg a.rx_history) (two_second_avg b.rx_history)
cmp_column tx_total a b = compare a.tx_bytes b.tx_bytes
cmp_column rx_total a b = compare a.rx_bytes b.rx_bytes
cmp_column tid a b = compare a.info.tid b.info.tid
cmp_column thread a b = cmp_text a.info.thread_name b.info.thread_name

abbrev pub reverse : Ordering → Ordering
reverse Ordering.lt = Ordering.gt
reverse Ordering.eq = Ordering.eq
reverse Ordering.gt = Ordering.lt

-- The comparison that `sorted_rows` sorts by.
unfoldable pub cmp_rows : SortColumn → Bool → ProcessRow → ProcessRow → Ordering
cmp_rows column true a b = cmp_column column a b
cmp_rows column false a b = reverse (cmp_column column a b)

abbrev pub is_gt : Ordering → Bool
is_gt Ordering.gt = true
is_gt Ordering.lt = false
is_gt Ordering.eq = false

-- `sort_by`, a stable sort: a row goes before the rows that it does not compare greater than.
unfoldable pub insert_by :
    (ProcessRow → ProcessRow → Ordering) → ProcessRow → List ProcessRow → List ProcessRow
insert_by cmp r [] = r ∷ []
insert_by cmp r (x ∷ xs) =
    let rest = insert_by cmp r xs in if is_gt (cmp r x) then x ∷ rest else r ∷ x ∷ xs

unfoldable pub sort_by : (ProcessRow → ProcessRow → Ordering) → List ProcessRow → List ProcessRow
sort_by cmp [] = []
sort_by cmp (r ∷ rs) = insert_by cmp r (sort_by cmp rs)

unfoldable pub sorted_rows : NetmonApp → List ProcessRow → List ProcessRow
sorted_rows a rows = sort_by (cmp_rows a.sort_column a.sort_ascending) rows

instance abbrev pub sort_column_eq : PartialEq SortColumn
sort_column_eq = of_discrete SortColumn-discrete

unfoldable pub set_sort : SortColumn → NetmonApp → NetmonApp
set_sort col a =
    if a.sort_column == col
    then record a { sort_ascending = not a.sort_ascending }
    else record a { sort_column = col; sort_ascending = true }
