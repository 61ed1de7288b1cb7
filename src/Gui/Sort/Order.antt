-- ===== src/Gui/Sort/Order.antt =====
-- The comparison of rows is a total preorder, whatever the column and the direction.
use Prim.Native.Nat.{compare, Ordering}
use netmon.Base.{ℕ, ◌≡◌, refl, sym, ap, ◌∙◌, Bool, true, false, [], ◌∷◌, arith}
use netmon.Base.Text.{Text}
use netmon.Aggregator.Types.{ProcessRow}
use netmon.Gui.Types.{
  SortColumn, pid, tid, process, thread, user, protocol_mix, tx_rate, rx_rate, tx_total, rx_total,
}
use netmon.Gui.Sort.{
  cmp_text, cmp_column, reverse, cmp_rows, is_gt, two_second_avg, protocol_mix_summary,
}

cmp_text-flip : (s t : Text) → cmp_text t s ≡ reverse (cmp_text s t)
unfolding cmp_text
cmp_text-flip [] [] = refl
cmp_text-flip [] (b ∷ t) = refl
cmp_text-flip (a ∷ s) [] = refl
cmp_text-flip (a ∷ s) (b ∷ t) = ground (arith, cmp_text-flip s t)

cmp_text_trans :
    (s t u : Text)
    → is_gt (cmp_text s t) ≡ false
    → is_gt (cmp_text t u) ≡ false
    → is_gt (cmp_text s u) ≡ false
unfolding cmp_text
cmp_text_trans [] t [] h k = refl
cmp_text_trans [] t (c ∷ u) h k = refl
cmp_text_trans (a ∷ s) [] u h k = cc h
cmp_text_trans (a ∷ s) (b ∷ t) [] h k = cc k
cmp_text_trans (a ∷ s) (b ∷ t) (c ∷ u) h k = ground (arith, cmp_text_trans s t u)

compare-flip : (m n : ℕ) → compare n m ≡ reverse (compare m n)
compare-flip m n = ground arith

compare_trans :
    (m n o : ℕ)
    → is_gt (compare m n) ≡ false
    → is_gt (compare n o) ≡ false
    → is_gt (compare m o) ≡ false
compare_trans m n o h k = ground arith

pub cmp_column-flip :
    (c : SortColumn) (a b : ProcessRow) → cmp_column c b a ≡ reverse (cmp_column c a b)
unfolding cmp_column
cmp_column-flip pid a b = compare-flip a.info.pid b.info.pid
cmp_column-flip process a b = cmp_text-flip a.info.name b.info.name
cmp_column-flip user a b = cmp_text-flip a.info.username b.info.username
cmp_column-flip protocol_mix a b = cmp_text-flip (protocol_mix_summary a) (protocol_mix_summary b)
cmp_column-flip tx_rate a b =
    compare-flip (two_second_avg a.tx_history) (two_second_avg b.tx_history)
cmp_column-flip rx_rate a b =
    compare-flip (two_second_avg a.rx_history) (two_second_avg b.rx_history)
cmp_column-flip tx_total a b = compare-flip a.tx_bytes b.tx_bytes
cmp_column-flip rx_total a b = compare-flip a.rx_bytes b.rx_bytes
cmp_column-flip tid a b = compare-flip a.info.tid b.info.tid
cmp_column-flip thread a b = cmp_text-flip a.info.thread_name b.info.thread_name

cmp_column_trans :
    (c : SortColumn) (x y z : ProcessRow)
    → is_gt (cmp_column c x y) ≡ false
    → is_gt (cmp_column c y z) ≡ false
    → is_gt (cmp_column c x z) ≡ false
unfolding cmp_column
cmp_column_trans pid x y z = compare_trans x.info.pid y.info.pid z.info.pid
cmp_column_trans process x y z = cmp_text_trans x.info.name y.info.name z.info.name
cmp_column_trans user x y z = cmp_text_trans x.info.username y.info.username z.info.username
cmp_column_trans protocol_mix x y z =
    cmp_text_trans (protocol_mix_summary x) (protocol_mix_summary y) (protocol_mix_summary z)
cmp_column_trans tx_rate x y z =
    compare_trans (two_second_avg x.tx_history) (two_second_avg y.tx_history)
      (two_second_avg z.tx_history)
cmp_column_trans rx_rate x y z =
    compare_trans (two_second_avg x.rx_history) (two_second_avg y.rx_history)
      (two_second_avg z.rx_history)
cmp_column_trans tx_total x y z = compare_trans x.tx_bytes y.tx_bytes z.tx_bytes
cmp_column_trans rx_total x y z = compare_trans x.rx_bytes y.rx_bytes z.rx_bytes
cmp_column_trans tid x y z = compare_trans x.info.tid y.info.tid z.info.tid
cmp_column_trans thread x y z =
    cmp_text_trans x.info.thread_name y.info.thread_name z.info.thread_name

not_gt-reverse : (o : Ordering) → is_gt o ≡ true → is_gt (reverse o) ≡ false
not_gt-reverse Ordering.lt h = cc h
not_gt-reverse Ordering.eq h = cc
not_gt-reverse Ordering.gt h = refl

pub cmp_rows_total :
    (c : SortColumn) (up : Bool) (a b : ProcessRow)
    → is_gt (cmp_rows c up a b) ≡ true
    → is_gt (cmp_rows c up b a) ≡ false
unfolding cmp_rows
cmp_rows_total c true a b h = ap is_gt (cmp_column-flip c a b) ∙ not_gt-reverse (cmp_column c a b) h
cmp_rows_total c false a b h =
    ap (λ o. is_gt (reverse o)) (cmp_column-flip c a b)
    ∙ not_gt-reverse (reverse (cmp_column c a b)) h

pub cmp_rows_trans :
    (c : SortColumn) (up : Bool) (x y z : ProcessRow)
    → is_gt (cmp_rows c up x y) ≡ false
    → is_gt (cmp_rows c up y z) ≡ false
    → is_gt (cmp_rows c up x z) ≡ false
unfolding cmp_rows
cmp_rows_trans c true x y z h k = cmp_column_trans c x y z h k
cmp_rows_trans c false x y z h k =
    ap is_gt (sym (cmp_column-flip c x z))
    ∙ cmp_column_trans c z y x (ap is_gt (cmp_column-flip c y z) ∙ k)
        (ap is_gt (cmp_column-flip c x y) ∙ h)
