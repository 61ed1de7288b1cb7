-- ===== src/Aggregator/History/Shift.antt =====
-- The shifting loop against its meaning: the current second in front, the oldest one dropped.
use netmon.Base.{
  ℕ, zero, suc, ◌≤◌, ◌<◌, ◌≡◌, refl, ap, ◌∙◌, List, [], ◌∷◌, ◌++◌, arith, length, get_or, set, take,
  drop, length-set, length-take,
}
use mathlib.Core.List.{append-nil}
use netmon.Aggregator.Types.{ThreadStats, Interface}
use netmon.Aggregator.History.{shift_slots, rotate_second, rotate_interface_second}

-- One array under the loop.
shift_one : ℕ → List ℕ → List ℕ
shift_one zero h = h
shift_one (suc i) h = shift_one i (set h (suc i) (get_or h i 0))

shift_slots-shift_one :
    (n : ℕ) (tx rx : List ℕ) → shift_slots n tx rx ≡ (shift_one n tx, shift_one n rx)
unfolding shift_slots shift_one
shift_slots-shift_one zero tx rx = refl
shift_slots-shift_one (suc i) tx rx = shift_slots-shift_one i _ _

take-set : (i : ℕ) (h : List ℕ) (v : ℕ) → take i (set h i v) ≡ take i h
take-set zero h v = refl
take-set (suc i) [] v = refl
take-set (suc i) (x ∷ h) v = ap (◌∷◌ x) (take-set i h v)

drop-set : (i : ℕ) (h : List ℕ) (v : ℕ) → i < length h → drop i (set h i v) ≡ v ∷ drop (suc i) h
drop-set zero [] v p = elim p [ ]
drop-set zero (x ∷ h) v p = refl
drop-set (suc i) [] v p = elim p [ ]
drop-set (suc i) (x ∷ h) v p = drop-set i h v (omega arith)

take_next :
    (i : ℕ) (h rest : List ℕ)
    → i < length h
    → take i h ++ (get_or h i 0 ∷ rest) ≡ take (suc i) h ++ rest
take_next i [] rest p = elim p [ ]
take_next zero (x ∷ h) rest p = refl
take_next (suc i) (x ∷ h) rest p = ap (◌∷◌ x) (take_next i h rest (omega arith))

-- Slots 1 to `n` get what stood one slot before; the others keep their value.
shift_one_lem :
    (n x : ℕ) (h : List ℕ) → n ≤ length h → shift_one n (x ∷ h) ≡ x ∷ (take n (x ∷ h) ++ drop n h)
unfolding shift_one
shift_one_lem zero x h p = refl
shift_one_lem (suc i) x h p =
    shift_one_lem i x (set h i (get_or (x ∷ h) i 0))
      (omega (arith, length-set h i (get_or (x ∷ h) i 0)))
    ∙ ap (◌∷◌ x) moved
  where
    v : ℕ
    v = get_or (x ∷ h) i 0

    front : (j : ℕ) (w : ℕ) → take j (x ∷ set h j w) ≡ take j (x ∷ h)
    front zero w = refl
    front (suc j) w = ap (◌∷◌ x) (shorter j h w)
      where
        shorter : (k : ℕ) (l : List ℕ) (u : ℕ) → take k (set l (suc k) u) ≡ take k l
        shorter zero l u = refl
        shorter (suc k) [] u = refl
        shorter (suc k) (y ∷ l) u = ap (◌∷◌ y) (shorter k l u)

    moved : take i (x ∷ set h i v) ++ drop i (set h i v) ≡ take (suc i) (x ∷ h) ++ drop (suc i) h
    moved =
        rw (front i v, drop-set i h v (omega arith))
          (take_next i (x ∷ h) (drop (suc i) h) (omega arith))

drop_all : (n : ℕ) (h : List ℕ) → length h ≡ n → drop n h ≡ []
drop_all zero [] p = refl
drop_all zero (x ∷ h) p = absurd (omega arith)
drop_all (suc n) [] p = refl
drop_all (suc n) (x ∷ h) p = drop_all n h (omega arith)

-- The abstract rotation: the newest sample first, the oldest forgotten.
abbrev pub pushed : ℕ → List ℕ → List ℕ
pushed current h = current ∷ take 299 h

pushed_lem :
    (n : ℕ) (h : List ℕ) (current : ℕ)
    → length h ≡ suc n
    → set (shift_one n h) 0 current ≡ current ∷ take n h
pushed_lem n [] current p = absurd (omega arith)
pushed_lem n (x ∷ h) current p =
    rw (shift_one_lem n x h (omega arith), drop_all n h (omega arith))
      (ap (◌∷◌ current) (append-nil _))

set_shifted :
    (tx rx : List ℕ) (a b : ℕ)
    → length tx ≡ 300
    → length rx ≡ 300
    → (set (shift_slots 299 tx rx).0 0 a ≡ pushed a tx)
      × (set (shift_slots 299 tx rx).1 0 b ≡ pushed b rx)
set_shifted tx rx a b p q =
    rw (shift_slots-shift_one 299 tx rx) (pushed_lem 299 tx a p, pushed_lem 299 rx b q)

-- `rotate_second` puts the bytes of the second that ended in front of both histories, drops the
-- oldest of the 300 samples, resets both accumulators, and leaves the totals alone.
pub rotate_second_lem :
    (s : ThreadStats)
    → length s.tx_history ≡ 300
    → length s.rx_history ≡ 300
    → rotate_second s ≡ (record s {
      tx_history = pushed s.tx_current_second s.tx_history;
      rx_history = pushed s.rx_current_second s.rx_history;
      tx_current_second = 0;
      rx_current_second = 0;
    })
unfolding rotate_second
rotate_second_lem s p q =
    let (t, r) =
      set_shifted s.tx_history s.rx_history s.tx_current_second s.rx_current_second p q in
    rw (t, r) refl

-- `rotate_interface_second` does the same to the histories of the interface.
pub rotate_interface_second_lem :
    (f : Interface)
    → length f.tx_history ≡ 300
    → length f.rx_history ≡ 300
    → rotate_interface_second f ≡ (record f {
      tx_history = pushed f.tx_current_second f.tx_history;
      rx_history = pushed f.rx_current_second f.rx_history;
      tx_current_second = 0;
      rx_current_second = 0;
    })
unfolding rotate_interface_second
rotate_interface_second_lem f p q =
    let (t, r) =
      set_shifted f.tx_history f.rx_history f.tx_current_second f.rx_current_second p q in
    rw (t, r) refl

pub length-pushed : (current : ℕ) (h : List ℕ) → length h ≡ 300 → length (pushed current h) ≡ 300
length-pushed current h p = omega (arith, length-take 299 h)
