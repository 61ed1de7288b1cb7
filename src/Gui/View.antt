-- ===== src/Gui/View.antt =====
-- What crates/gui/src/main.rs shows of the rows: the selection, the connections, the colours and the
-- chart. Drawing itself is egui's.
pub mod Sums
use netmon.Base.{
  ℕ, zero, suc, ◌+◌, ◌*◌, min, Bool, true, false, ◌&&◌, ◌||◌, List, [], ◌∷◌, ◌++◌, Option, none,
  some, map, take, replicate, ltb, nat_eq, if◌then◌else◌, ◌==◌,
}
use netmon.Base.Text.{Text, text}
use netmon.Base.Word.{saturating_add}
use netmon.Capture.Types.{Protocol, tcp, udp, other}
use netmon.Aggregator.Types.{ThreadKey, ConnectionEntry, ProcessRow, thread_key_eq}
use netmon.Gui.Types.{NetmonApp}
use netmon.Gui.Sort.{two_second_avg}

abbrev pub chart_history_seconds : ℕ
chart_history_seconds = 300

abbrev pub row_key : ProcessRow → ThreadKey
row_key row = record { pid = row.info.pid; tid = row.info.tid }

abbrev pub clicked : ProcessRow → NetmonApp → Option ThreadKey → NetmonApp
clicked row a none = record a { selected_thread = some (row_key row) }
clicked row a (some key) = record a {
  selected_thread = if key == row_key row then none else some (row_key row);
}

-- A click on the process id of a row.
unfoldable pub click_row : ProcessRow → NetmonApp → NetmonApp
click_row row a = clicked row a a.selected_thread

-- The Escape key.
unfoldable pub clear_selection : NetmonApp → NetmonApp
clear_selection a = record a { selected_thread = none }

-- `selected.pid == row.info.pid && selected.tid == row.info.tid`
unfoldable pub is_selected : ThreadKey → ProcessRow → Bool
is_selected key row = nat_eq key.pid row.info.pid && nat_eq key.tid row.info.tid

unfoldable pub is_visible : Option ThreadKey → ProcessRow → Bool
is_visible none row = true
is_visible (some key) row = is_selected key row

unfoldable pub collect_visible_connections :
    NetmonApp → List ProcessRow → List (Bool × ConnectionEntry)
collect_visible_connections a [] = []
collect_visible_connections a (row ∷ rest) =
    let more = collect_visible_connections a rest in
    if is_visible a.selected_thread row
    then map (λ c. (row.is_blocked, c)) row.connections ++ more
    else more

-- `rows.iter().find(...)`
unfoldable pub find_row : ThreadKey → List ProcessRow → Option ProcessRow
find_row key [] = none
find_row key (row ∷ rest) = if is_selected key row then some row else find_row key rest

unfoldable pub format_protocol : Protocol → Text
format_protocol tcp = text "TCP"
format_protocol udp = text "UDP"
format_protocol (other n) = text "OTHER"

abbrev high_traffic : ℕ
high_traffic = 1024 * 1024

abbrev very_high_traffic : ℕ
very_high_traffic = 10 * 1024 * 1024

pub data Color : Type 0 where
  red orange plain : Color

unfoldable pub hot_color : ProcessRow → Color
hot_color row =
    let tx_rate = two_second_avg row.tx_history in
    let rx_rate = two_second_avg row.rx_history in
    if ltb very_high_traffic tx_rate || ltb very_high_traffic rx_rate
    then red
    else if ltb high_traffic tx_rate || ltb high_traffic rx_rate
    then orange
    else plain

-- The loop over the slots of one history.
unfoldable pub add_history : List ℕ → List ℕ → List ℕ
add_history [] h = []
add_history (x ∷ xs) [] = x ∷ xs
add_history (x ∷ xs) (y ∷ h) = saturating_add x y ∷ add_history xs h

abbrev pub zeros : List ℕ
zeros = replicate chart_history_seconds 0

unfoldable pub sum_histories : List ProcessRow → List ℕ → List ℕ → List ℕ × List ℕ
sum_histories [] tx rx = (tx, rx)
sum_histories (row ∷ rest) tx rx =
    sum_histories rest (add_history tx row.tx_history) (add_history rx row.rx_history)

abbrev found_histories : Option ProcessRow → List ℕ × List ℕ
found_histories none = (zeros, zeros)
found_histories (some row) = (row.tx_history, row.rx_history)

-- The two histories that `draw_chart` plots.
unfoldable pub chart_histories : List ProcessRow → Option ThreadKey → List ℕ × List ℕ
chart_histories rows none = sum_histories rows zeros zeros
chart_histories rows (some key) = found_histories (find_row key rows)

-- `window_seconds.clamp(1, CHART_HISTORY_SECONDS)`
unfoldable pub chart_window : ℕ → ℕ
chart_window zero = 1
chart_window (suc n) = min (suc n) chart_history_seconds

-- The plotted samples in bytes a second, newest first; egui gets them in KB/s.
unfoldable pub chart_points : ℕ → List ProcessRow → Option ThreadKey → List ℕ × List ℕ
chart_points window_seconds rows selected =
    let (tx, rx) = chart_histories rows selected in
    (take (chart_window window_seconds) tx, take (chart_window window_seconds) rx)
