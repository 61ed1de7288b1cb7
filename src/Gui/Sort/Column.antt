-- ===== src/Gui/Sort/Column.antt =====
-- What the order of the process table means: the values of its columns and how they compare.
use Prim.Native.Nat.{compare}
use netmon.Base.{
  ℕ, ◌+◌, ◌/◌, ◌%◌, ◌^◌, ◌≤◌, ◌<◌, ◌≡◌, refl, ap, ◌∙◌, Bool, true, false, List, [], ◌∷◌, All, arith,
  ◌⊎◌, get_or,
}
use netmon.Base.Text.{Text}
use netmon.Aggregator.Types.{ProcessRow}
use netmon.Base.Word.{wrapping_add}
use netmon.Aggregator.History.{wrapping_sum}
use netmon.Gui.Types.{
  SortColumn, pid, tid, process, thread, user, protocol_mix, tx_rate, rx_rate, tx_total, rx_total,
}
use netmon.Gui.Sort.{cmp_text, cmp_column, cmp_rows, is_gt, two_second_avg, protocol_mix_summary}
use netmon.Gui.Sort.Order.{cmp_column-flip}

-- The order of a dictionary.
abbrev pub LeText : Text → Text → Type 0
LeText [] t = Unit {0}
LeText (a ∷ s) [] = ⊥
LeText (a ∷ s) (b ∷ t) = (a < b) ⊎ ((a ≡ b) × LeText s t)

-- Half the sum, a u64, of the two newest samples.
abbrev pub newest_rate : List ℕ → ℕ
newest_rate history = (get_or history 0 0 + get_or history 1 0) % 2 ^ 64 / 2

-- The value of the first row in the column is at most that of the second.
abbrev pub AtMost : SortColumn → ProcessRow → ProcessRow → Type 0
AtMost pid a b = a.info.pid ≤ b.info.pid
AtMost tid a b = a.info.tid ≤ b.info.tid
AtMost process a b = LeText a.info.name b.info.name
AtMost thread a b = LeText a.info.thread_name b.info.thread_name
AtMost user a b = LeText a.info.username b.info.username
AtMost protocol_mix a b = LeText (protocol_mix_summary a) (protocol_mix_summary b)
AtMost tx_rate a b = newest_rate a.tx_history ≤ newest_rate b.tx_history
AtMost rx_rate a b = newest_rate a.rx_history ≤ newest_rate b.rx_history
AtMost tx_total a b = a.tx_bytes ≤ b.tx_bytes
AtMost rx_total a b = a.rx_bytes ≤ b.rx_bytes

-- The first row may stand before the second: upwards if true.
abbrev pub InOrder : SortColumn → Bool → ProcessRow → ProcessRow → Type 0
InOrder c true a b = AtMost c a b
InOrder c false a b = AtMost c b a

-- Each row may stand before all later ones.
abbrev pub IsInOrder : SortColumn → Bool → List ProcessRow → Type 0
IsInOrder c up [] = Unit {0}
IsInOrder c up (r ∷ rs) = All (InOrder c up r) rs × IsInOrder c up rs

cmp_text-LeText : (s t : Text) → is_gt (cmp_text s t) ≡ false → LeText s t
unfolding cmp_text
cmp_text-LeText [] t h = tt
cmp_text-LeText (a ∷ s) [] h = cc h
cmp_text-LeText (a ∷ s) (b ∷ t) h = ground (arith, cmp_text-LeText s t)

compare-le : (m n : ℕ) → is_gt (compare m n) ≡ false → m ≤ n
compare-le m n h = ground arith

two_second_avg-newest_rate : (h : List ℕ) → two_second_avg h ≡ newest_rate h
unfolding two_second_avg wrapping_sum wrapping_add
two_second_avg-newest_rate [] = refl
two_second_avg-newest_rate (x ∷ []) = omega arith
two_second_avg-newest_rate (x ∷ (y ∷ h)) = omega arith

rate-le :
    (g h : List ℕ)
    → is_gt (compare (two_second_avg g) (two_second_avg h)) ≡ false
    → newest_rate g ≤ newest_rate h
rate-le g h p = omega (
  arith,
  compare-le (two_second_avg g) (two_second_avg h) p,
  two_second_avg-newest_rate g,
  two_second_avg-newest_rate h,
)

cmp_column-AtMost :
    (c : SortColumn) (a b : ProcessRow) → is_gt (cmp_column c a b) ≡ false → AtMost c a b
unfolding cmp_column
cmp_column-AtMost pid a b = compare-le a.info.pid b.info.pid
cmp_column-AtMost tid a b = compare-le a.info.tid b.info.tid
cmp_column-AtMost process a b = cmp_text-LeText a.info.name b.info.name
cmp_column-AtMost thread a b = cmp_text-LeText a.info.thread_name b.info.thread_name
cmp_column-AtMost user a b = cmp_text-LeText a.info.username b.info.username
cmp_column-AtMost protocol_mix a b =
    cmp_text-LeText (protocol_mix_summary a) (protocol_mix_summary b)
cmp_column-AtMost tx_rate a b = rate-le a.tx_history b.tx_history
cmp_column-AtMost rx_rate a b = rate-le a.rx_history b.rx_history
cmp_column-AtMost tx_total a b = compare-le a.tx_bytes b.tx_bytes
cmp_column-AtMost rx_total a b = compare-le a.rx_bytes b.rx_bytes

-- A row that does not compare greater than another may stand before it.
pub cmp_rows-InOrder :
    (c : SortColumn) (up : Bool) (a b : ProcessRow)
    → is_gt (cmp_rows c up a b) ≡ false
    → InOrder c up a b
unfolding cmp_rows
cmp_rows-InOrder c true a b h = cmp_column-AtMost c a b h
cmp_rows-InOrder c false a b h = cmp_column-AtMost c b a (ap is_gt (cmp_column-flip c a b) ∙ h)
