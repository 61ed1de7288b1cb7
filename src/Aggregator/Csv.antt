-- ===== src/Aggregator/Csv.antt =====
-- The history file of crates/aggregator/src/lib.rs: `append_history_csv` and `sanitize_csv`.
pub mod Fields
use netmon.Base.{
  ℕ, zero, suc, ◌+◌, ◌/◌, ◌%◌, Bool, true, false, List, [], ◌∷◌, ◌++◌, map, ltb, nat_eq,
  if◌then◌else◌,
}
use netmon.Base.Text.{Text, text}
use netmon.Base.Numbers.{decimal}
use netmon.HashMap.{HashMap, values}
use netmon.Aggregator.Types.{ThreadKey, ThreadStats, HistoryCsvRow}
use netmon.Aggregator.History.{two_second_avg, ten_second_avg}

-- `value.replace('"', "'").replace(',', " ")`
unfoldable pub sanitize_char : ℕ → ℕ
sanitize_char c = if nat_eq c 34 then 39 else if nat_eq c 44 then 32 else c

unfoldable pub sanitize_csv : Text → Text
sanitize_csv value = map sanitize_char value

unfoldable pub history_row : ℕ → ThreadStats → HistoryCsvRow
history_row ts s = record {
  timestamp = ts;
  pid = s.info.pid;
  tid = s.info.tid;
  process = s.info.name;
  thread = s.info.thread_name;
  user = s.info.username;
  uid = s.info.uid;
  tx_bytes_total = s.tx_bytes_total;
  rx_bytes_total = s.rx_bytes_total;
  tx_2s_avg = two_second_avg s.tx_history;
  rx_2s_avg = two_second_avg s.rx_history;
  tx_10s_avg = ten_second_avg s.tx_history;
  rx_10s_avg = ten_second_avg s.rx_history;
}

-- The thirteen fields of the line of a row.
unfoldable pub csv_fields : HistoryCsvRow → List Text
csv_fields row =
    decimal row.timestamp
    ∷ decimal row.pid
    ∷ decimal row.tid
    ∷ sanitize_csv row.process
    ∷ sanitize_csv row.thread
    ∷ sanitize_csv row.user
    ∷ decimal row.uid
    ∷ decimal row.tx_bytes_total
    ∷ decimal row.rx_bytes_total
    ∷ decimal row.tx_2s_avg
    ∷ decimal row.rx_2s_avg
    ∷ decimal row.tx_10s_avg
    ∷ decimal row.rx_10s_avg
    ∷ []

-- `{},{},...` of the fields
unfoldable pub join_commas : List Text → Text
join_commas [] = []
join_commas (f ∷ []) = f
join_commas (f ∷ g ∷ fs) = f ++ (44 ∷ join_commas (g ∷ fs))

unfoldable pub csv_line : HistoryCsvRow → Text
csv_line row = join_commas (csv_fields row) ++ text "\n"

-- The file and the rows of the session.
pub record Csv : Type 0 where
  pub file : Text
  pub history : List HistoryCsvRow

unfoldable pub csv_lines : List HistoryCsvRow → Text
csv_lines [] = []
csv_lines (row ∷ rows) = csv_line row ++ csv_lines rows

-- Writes that fail are not modelled: the file takes every line.
unfoldable pub append_history_csv : ℕ → HashMap ThreadKey ThreadStats → Csv → Csv
append_history_csv ts threads c =
    let rows = map (history_row ts) (values threads) in
    record { file = c.file ++ csv_lines rows; history = c.history ++ rows }
