-- ===== src/Aggregator/Rotation.antt =====
-- The one-second tick: `rotate_histories_if_due` of crates/aggregator/src/lib.rs.
use netmon.Base.{ℕ, ◌-◌, Bool, true, false, get_or, ltb, if◌then◌else◌}
use netmon.Base.Word.{wrapping_add}
use netmon.HashMap.{map_entries}
use netmon.Aggregator.Types.{Interface}
use netmon.Aggregator.History.{rotate_second, rotate_interface_second}
use netmon.Aggregator.Record.{Counters}

abbrev pub rotation_period : ℕ
rotation_period = 1000

-- `if_tx_history[0] + if_rx_history[0]`, an unchecked addition
abbrev pub newest_bandwidth : Interface → ℕ
newest_bandwidth f = wrapping_add (get_or f.tx_history 0 0) (get_or f.rx_history 0 0)

unfoldable pub raise_peak : Interface → Interface
raise_peak f =
    if ltb f.peak_bw (newest_bandwidth f) then record f { peak_bw = newest_bandwidth f } else f

unfoldable pub rotate_histories : Counters → Counters
rotate_histories c = record c {
  threads = map_entries (λ k s. rotate_second s) c.threads;
  interface = raise_peak (rotate_interface_second c.interface);
}

-- The counters, the time of the last rotation, and whether one occurred.
unfoldable pub rotate_histories_if_due : ℕ → Counters → ℕ → Counters × ℕ × Bool
rotate_histories_if_due now c last_rotation =
    if ltb (now - last_rotation) rotation_period
    then (c, last_rotation, false)
    else (rotate_histories c, now, true)
