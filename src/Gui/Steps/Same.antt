-- ===== src/Gui/Steps/Same.antt =====
-- The steps that leave both the capture and the blocks alone.
use netmon.Base.{ℕ, refl, Bool, true, false, List, [], ◌∷◌, Option, none, some, if_cases, ◌==◌}
use netmon.Base.Text.{Text}
use netmon.Aggregator.Types.{ThreadKey, ProcessRow, HistoryCsvRow}
use netmon.Capture.Control.{CaptureControl}
use netmon.Gui.Types.{NetmonApp, SortColumn}
use netmon.Gui.Sort.{set_sort, sort_column_eq}
use netmon.Gui.View.{clicked, click_row}
use netmon.Gui.Export.{
  Disk, write_rows, rows_written, create_file, export_rows, export_csv, Copying, copied,
  export_from, export_pcap, sort_history, header,
}

-- The capture of `b` is that of `a`.
abbrev pub SameCapture : NetmonApp → NetmonApp → Type 0
SameCapture a b =
    Path (Bool × Option CaptureControl × Option Text × List CaptureControl × List ℕ)
      (b.is_capturing, b.capture_control, b.capture_recording_path, b.dropped, b.blocked_pids)
      (a.is_capturing, a.capture_control, a.capture_recording_path, a.dropped, a.blocked_pids)

pub set_sort-SameCapture : (column : SortColumn) (a : NetmonApp) → SameCapture a (set_sort column a)
unfolding set_sort
set_sort-SameCapture column a =
    if_cases (SameCapture a) (a.sort_column == column) _ _ (λ y. refl) (λ n. refl)

pub click_row-SameCapture : (row : ProcessRow) (a : NetmonApp) → SameCapture a (click_row row a)
unfolding click_row
click_row-SameCapture row a = go a.selected_thread
  where
    go : (o : Option ThreadKey) → SameCapture a (clicked row a o)
    go none = refl
    go (some key) = refl

pub export_csv-SameCapture : (d : Disk) (a : NetmonApp) → SameCapture a (export_csv d a).0
unfolding export_csv
export_csv-SameCapture d a = rows_exported a.session_history_snapshot
  where
    written : (path : Text) (r : Bool × Text) → SameCapture a (rows_written path r a).0
    written path (true, file) = refl
    written path (false, file) = refl

    created :
        (rows : List HistoryCsvRow) (e : Option Text) → SameCapture a (create_file d rows a e).0
    created rows (some e) = refl
    created rows none =
        if_cases (λ (r : NetmonApp × Option Text). SameCapture a r.0) (d.writes 0) _ _
          (λ y. written _ (write_rows d.writes 1 (sort_history rows) header)) (λ n. refl)

    rows_exported : (rows : List HistoryCsvRow) → SameCapture a (export_rows d rows a).0
    rows_exported [] = refl
    rows_exported (row ∷ rows) = created (row ∷ rows) d.create_error

pub export_pcap-SameCapture : (d : Copying) (a : NetmonApp) → SameCapture a (export_pcap d a).0
unfolding export_pcap copied
export_pcap-SameCapture d a = go a.capture_recording_path
  where
    made : (source : Text) (e : Option Text) → SameCapture a (copied d source e a).0
    made source none = refl
    made source (some e) = refl

    go : (o : Option Text) → SameCapture a (export_from d a o).0
    go none = refl
    go (some source) =
        if_cases (λ (r : NetmonApp × Option (Text × Text)). SameCapture a r.0) (d.exists source) _ _
          (λ y. made source d.copy_error) (λ n. refl)
