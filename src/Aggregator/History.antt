-- ===== src/Aggregator/History.antt =====
-- The per-second histories: `rotate_second`, `rotate_interface_second` and the rolling averages.
pub mod Shift
pub mod Sums
use netmon.Base.{ℕ, zero, suc, ◌+◌, ◌/◌, List, [], ◌∷◌, get_or, set, take}
use netmon.Base.Word.{wrapping_add}
use netmon.Aggregator.Types.{ThreadStats, Interface, history_slots}

-- `for idx in (1..=n).rev() { tx[idx] = tx[idx - 1]; rx[idx] = rx[idx - 1]; }`
unfoldable pub shift_slots : ℕ → List ℕ → List ℕ → List ℕ × List ℕ
shift_slots zero tx rx = (tx, rx)
shift_slots (suc i) tx rx =
    shift_slots i (set tx (suc i) (get_or tx i 0)) (set rx (suc i) (get_or rx i 0))

last_slot : ℕ
last_slot = 299

-- `ThreadStats::rotate_second`
unfoldable pub rotate_second : ThreadStats → ThreadStats
unfolding last_slot
rotate_second s =
    let (tx, rx) = shift_slots last_slot s.tx_history s.rx_history in
    record s {
      tx_history = set tx 0 s.tx_current_second;
      rx_history = set rx 0 s.rx_current_second;
      tx_current_second = 0;
      rx_current_second = 0;
    }

unfoldable pub rotate_interface_second : Interface → Interface
unfolding last_slot
rotate_interface_second f =
    let (tx, rx) = shift_slots last_slot f.tx_history f.rx_history in
    record f {
      tx_history = set tx 0 f.tx_current_second;
      rx_history = set rx 0 f.rx_current_second;
      tx_current_second = 0;
      rx_current_second = 0;
    }

unfoldable pub two_second_avg : List ℕ → ℕ
two_second_avg h = wrapping_add (get_or h 0 0) (get_or h 1 0) / 2

-- `iter().sum::<u64>()`
unfoldable pub wrapping_sum : List ℕ → ℕ
wrapping_sum [] = 0
wrapping_sum (x ∷ xs) = wrapping_add x (wrapping_sum xs)

unfoldable pub ten_second_avg : List ℕ → ℕ
unfolding wrapping_sum
ten_second_avg h = wrapping_sum (take 10 h) / 10
