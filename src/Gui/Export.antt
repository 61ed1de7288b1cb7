-- ===== src/Gui/Export.antt =====
-- The exports of crates/gui/src/main.rs. The file system is a parameter: what a call of it answers.
pub mod Written
use netmon.Base.{
  ℕ, zero, suc, ◌+◌, Bool, true, false, ◌&&◌, ◌||◌, List, [], ◌∷◌, ◌++◌, map, Option, none, some,
  ltb, nat_eq, leb, if◌then◌else◌,
}
use netmon.Base.Text.{Text, text}
use netmon.Base.Numbers.{decimal}
use netmon.Aggregator.Types.{HistoryCsvRow}
use netmon.Aggregator.Csv.{join_commas}
use netmon.Gui.Types.{NetmonApp, set_status}

-- `value.replace('"', "'").replace(',', " ")`
unfoldable pub sanitize_csv : Text → Text
sanitize_csv value =
    map (λ c. if nat_eq c 44 then 32 else c) (map (λ c. if nat_eq c 34 then 39 else c) value)

abbrev pub header : Text
header =
    text
      "timestamp,pid,tid,process,thread,user,uid,tx_bytes_total,rx_bytes_total,tx_2s_avg,rx_2s_avg,tx_10s_avg,rx_10s_avg\n"

unfoldable pub export_line : HistoryCsvRow → Text
export_line row =
    join_commas (
      decimal row.timestamp
      ∷ decimal row.pid
      ∷ decimal row.tid
      ∷ sanitize_csv row.process
      ∷ sanitize_csv row.thread
      ∷ sanitize_csv row.user
      ∷ decimal row.uid
      ∷ decimal row.tx_bytes_total
      ∷ decimal row.rx_bytes_total
      ∷ decimal row.tx_2s_avg
      ∷ decimal row.rx_2s_avg
      ∷ decimal row.tx_10s_avg
      ∷ decimal row.rx_10s_avg
      ∷ [])
    ++ text "\n"

-- `(a.timestamp, a.pid, a.tid) <= (b.timestamp, b.pid, b.tid)`
unfoldable pub history_le : HistoryCsvRow → HistoryCsvRow → Bool
history_le a b =
    ltb a.timestamp b.timestamp
    || (nat_eq a.timestamp b.timestamp
        && (ltb a.pid b.pid || (nat_eq a.pid b.pid && leb a.tid b.tid)))

unfoldable pub insert_history : HistoryCsvRow → List HistoryCsvRow → List HistoryCsvRow
insert_history r [] = r ∷ []
insert_history r (x ∷ xs) =
    let rest = insert_history r xs in if history_le r x then r ∷ x ∷ xs else x ∷ rest

-- `rows.sort_by_key(|row| (row.timestamp, row.pid, row.tid))`
unfoldable pub sort_history : List HistoryCsvRow → List HistoryCsvRow
sort_history [] = []
sort_history (r ∷ rs) = insert_history r (sort_history rs)

-- The home directory, the seconds of the clock, the error of `File::create`, and the writes that
-- succeed, by their number.
pub record Disk : Type 0 where
  pub home : Text
  pub ts : ℕ
  pub create_error : Option Text
  pub writes : ℕ → Bool

-- The rows in the file, until a write fails.
unfoldable pub write_rows : (ℕ → Bool) → ℕ → List HistoryCsvRow → Text → Bool × Text
write_rows writes n [] file = (true, file)
write_rows writes n (row ∷ rest) file =
    let more = write_rows writes (suc n) rest (file ++ export_line row) in
    if writes n then more else (false, file)

abbrev pub rows_written : Text → Bool × Text → NetmonApp → NetmonApp × Option Text
rows_written path (true, file) a = (set_status (text "Exported CSV to " ++ path) a, some file)
rows_written path (false, file) a =
    (set_status (text "CSV export failed while writing rows") a, some file)

-- The header, then the rows.
abbrev pub write_file : Disk → Text → List HistoryCsvRow → NetmonApp → NetmonApp × Option Text
write_file d path rows a =
    if d.writes 0
    then rows_written path (write_rows d.writes 1 (sort_history rows) header) a
    else (set_status (text "CSV export failed while writing header") a, some [])

abbrev pub export_path : Text → ℕ → Text → Text
export_path home ts extension = home ++ (text "/netmon_export_" ++ (decimal ts ++ extension))

abbrev pub create_file :
    Disk → List HistoryCsvRow → NetmonApp → Option Text → NetmonApp × Option Text
create_file d rows a (some e) = (set_status (text "CSV export failed: " ++ e) a, none)
create_file d rows a none = write_file d (export_path d.home d.ts (text ".csv")) rows a

abbrev pub export_rows : Disk → List HistoryCsvRow → NetmonApp → NetmonApp × Option Text
export_rows d [] a = (set_status (text "No session history captured yet") a, none)
export_rows d (row ∷ rows) a = create_file d (row ∷ rows) a d.create_error

-- The interface afterwards, and the contents of the file, if one was created.
unfoldable pub export_csv : Disk → NetmonApp → NetmonApp × Option Text
export_csv d a = export_rows d a.session_history_snapshot a

-- `exists` and the error of `fs::copy`.
pub record Copying : Type 0 where
  pub home : Text
  pub ts : ℕ
  pub exists : Text → Bool
  pub copy_error : Option Text

-- The source and the destination of a copy that was made.
unfoldable pub copied : Copying → Text → Option Text → NetmonApp → NetmonApp × Option (Text × Text)
copied d source (some e) a = (set_status (text "PCAP export failed: " ++ e) a, none)
copied d source none a =
    let destination = export_path d.home d.ts (text ".pcap") in
    (set_status (text "Exported PCAP to " ++ destination) a, some (source, destination))

abbrev pub export_from : Copying → NetmonApp → Option Text → NetmonApp × Option (Text × Text)
export_from d a none = (set_status (text "PCAP export unavailable: start capture first") a, none)
export_from d a (some source) =
    if d.exists source
    then copied d source d.copy_error a
    else (set_status (text "PCAP export unavailable: no recording file yet") a, none)

unfoldable pub export_pcap : Copying → NetmonApp → NetmonApp × Option (Text × Text)
export_pcap d a = export_from d a a.capture_recording_path
