-- ===== src/Gui/View/Sums.antt =====
-- The chart of all threads adds up their histories.
use netmon.Base.{
  ℕ, zero, suc, ◌+◌, ◌≤◌, ◌<◌, min, ◌≡◌, refl, ap, ◌∙◌, List, [], ◌∷◌, none, length, get_or, arith,
  length-replicate, replicate,
}
use netmon.Base.Word.{saturating_add, u64_max, saturating_add-le-max}
use netmon.Aggregator.Types.{ProcessRow}
use netmon.Gui.View.{add_history, sum_histories, chart_histories, zeros}

-- The samples of all rows at a slot.
abbrev pub total_tx : ℕ → List ProcessRow → ℕ
total_tx i [] = 0
total_tx i (row ∷ rest) = get_or row.tx_history i 0 + total_tx i rest

abbrev pub total_rx : ℕ → List ProcessRow → ℕ
total_rx i [] = 0
total_rx i (row ∷ rest) = get_or row.rx_history i 0 + total_rx i rest

length-add_history : (xs h : List ℕ) → length (add_history xs h) ≡ length xs
unfolding add_history
length-add_history [] h = refl
length-add_history (x ∷ xs) [] = refl
length-add_history (x ∷ xs) (y ∷ h) = ap suc (length-add_history xs h)

get_or-add_history :
    (xs h : List ℕ) (i : ℕ)
    → i < length xs
    → get_or xs i 0 ≤ u64_max
    → get_or (add_history xs h) i 0 ≡ saturating_add (get_or xs i 0) (get_or h i 0)
unfolding add_history saturating_add
get_or-add_history [] h i l b = absurd (omega arith)
get_or-add_history (x ∷ xs) [] zero l b = omega arith
get_or-add_history (x ∷ xs) [] (suc i) l b = omega arith
get_or-add_history (x ∷ xs) (y ∷ h) zero l b = refl
get_or-add_history (x ∷ xs) (y ∷ h) (suc i) l b = get_or-add_history xs h i (omega arith) b

get_or-sum_histories :
    (rows : List ProcessRow) (tx rx : List ℕ) (i : ℕ)
    → i < length tx
    → i < length rx
    → get_or tx i 0 ≤ u64_max
    → get_or rx i 0 ≤ u64_max
    → (get_or (sum_histories rows tx rx).0 i 0 ≡ min (get_or tx i 0 + total_tx i rows) u64_max)
      × (get_or (sum_histories rows tx rx).1 i 0 ≡ min (get_or rx i 0 + total_rx i rows) u64_max)
unfolding sum_histories
get_or-sum_histories [] tx rx i l m b d = (omega arith, omega arith)
get_or-sum_histories (row ∷ rest) tx rx i l m b d =
    let p = get_or-add_history tx row.tx_history i l b in
    let q = get_or-add_history rx row.rx_history i m d in
    let (u, v) =
      get_or-sum_histories rest (add_history tx row.tx_history) (add_history rx row.rx_history) i
        (omega (arith, length-add_history tx row.tx_history))
        (omega (arith, length-add_history rx row.rx_history))
        (omega (arith, p, saturating_add-le-max (get_or tx i 0) (get_or row.tx_history i 0)))
        (omega (arith, q, saturating_add-le-max (get_or rx i 0) (get_or row.rx_history i 0))) in
    (u ∙ unfold saturating_add in omega (arith, p), v ∙ unfold saturating_add in omega (arith, q))

abbrev zeros_of : ℕ → List ℕ
zeros_of n = replicate n 0

get_or-zeros : (n i : ℕ) → get_or (zeros_of n) i 0 ≡ 0
get_or-zeros zero i = refl
get_or-zeros (suc n) zero = refl
get_or-zeros (suc n) (suc i) = get_or-zeros n i

-- With no thread selected, each of the 300 samples of the chart is the sum of that sample over all
-- rows, sent and received, or the largest value of a counter where the sum is larger.
pub chart_histories-sum :
    (rows : List ProcessRow) (i : ℕ)
    → i < 300
    → (get_or (chart_histories rows none).0 i 0 ≡ min (total_tx i rows) u64_max)
      × (get_or (chart_histories rows none).1 i 0 ≡ min (total_rx i rows) u64_max)
unfolding chart_histories
chart_histories-sum rows i h =
    let z = get_or-zeros 300 i in
    let l : length zeros ≡ 300 = length-replicate {A = ℕ} 300 0 in
    let (u, v) =
      get_or-sum_histories rows zeros zeros i (omega (arith, l)) (omega (arith, l))
        (omega (arith, z)) (omega (arith, z)) in
    (u ∙ omega (arith, z), v ∙ omega (arith, z))
