-- ===== src/Gui/Tests.antt =====
-- The user interface on concrete rows, messages and steps, with the controller's nft of two rules.
use mathlib.Core.List.{Perm}
use netmon.Base.{
  min, ◌≡◌, ◌≢◌, refl, true, false, List, [], ◌∷◌, ◌++◌, none, some, arith, get_or, replicate, ℕ_eq,
}
use netmon.Base.Text.{text}
use netmon.Base.Word.{u64_max}
use netmon.Aggregator.Types.{ProcessRow, HistoryCsvRow}
use netmon.Aggregator.Csv.{csv_lines}
use netmon.Capture.Loop.{apply_filter, stop, timeout_expired, Turn, run_capture_loop}
use netmon.Capture.Loop.Exits.{is_over}
use netmon.Capture.Loop.Recording.{fresh}
use netmon.Capture.Control.{CaptureControl, returned, send, request_stop, join_timeout}
use netmon.Controller.Tests.World.{world, start, status_file}
use netmon.Gui.Types.{NetmonApp, new, tx_total}
use netmon.Gui.Sort.{sorted_rows}
use netmon.Gui.Sort.Column.{IsInOrder}
use netmon.Gui.Sort.Sorted.{sorted_rows-IsInOrder}
use netmon.Gui.Session.{Launch, Ending, stop_capture, update_status_from_channel}
use netmon.Gui.Session.Drained.{AreHandled, update_status_from_channel-AreHandled}
use netmon.Gui.Session.Ends.{stop_capture-is_over}
use netmon.Gui.Control.{Session, block_user, block_user_status, user_blocking}
use netmon.Gui.Control.Users.{AreDone, block_user-AreDone}
use netmon.Gui.View.{chart_histories}
use netmon.Gui.View.Sums.{total_tx, total_rx, chart_histories-sum}
use netmon.Gui.Export.{Disk, header, sort_history, export_csv}
use netmon.Gui.Export.Written.{IsSortedHistory, export_csv-csv_lines}

abbrev launch : Launch
launch = record {
  home = text "/root";
  ts = 7;
  opening = record { from_device = none; open_error = none; savefile = none };
}

abbrev ending : Ending
ending = record { receiving = true; joined = returned }

abbrev curl : ProcessRow
curl = record {
  info = record {
    pid = 42;
    tid = 43;
    name = text "curl";
    thread_name = text "main";
    uid = 5;
    username = text "ann";
  };
  tx_bytes = 900;
  rx_bytes = 20;
  last_seen = 0;
  tx_history = replicate 300 5;
  rx_history = replicate 300 1;
  is_blocked = false;
  connections = [];
}

abbrev sshd : ProcessRow
sshd = record curl {
  tx_bytes = 100;
  info = record curl.info { pid = 7; tid = 7; username = text "root" };
}

abbrev first : Session world.Nft
first = record {
  app = new (text "eth0" ∷ []) false;
  control = record { nft = start.nft; rules = [] };
}

abbrev descending : NetmonApp
descending = record (new [] false) { sort_column = tx_total; sort_ascending = false }

sorted_rows-IsInOrder_example :
    IsInOrder tx_total false (sorted_rows descending (sshd ∷ (curl ∷ [])))
    × Perm (sorted_rows descending (sshd ∷ (curl ∷ []))) (sshd ∷ (curl ∷ []))
sorted_rows-IsInOrder_example = sorted_rows-IsInOrder descending (sshd ∷ (curl ∷ []))

abbrev control : CaptureControl
control = record { sent = apply_filter (text "tcp") ∷ []; join_handle = true }

abbrev capturing : NetmonApp
capturing = record (new (text "eth0" ∷ []) false) {
  is_capturing = true;
  capture_control = some control;
  status_rx = text "Filter applied: tcp" ∷ (text "Capture stopped: interface went down." ∷ []);
}

update_status_from_channel-AreHandled_example :
    ((update_status_from_channel returned capturing).status_rx ≡ [])
    × AreHandled capturing.status_rx
        (record capturing { status_rx = [] })
        (update_status_from_channel returned capturing)
update_status_from_channel-AreHandled_example =
    update_status_from_channel-AreHandled returned capturing

-- One turn finds the filter, the next one the stop.
abbrev filtering : Turn
filtering = record {
  running = true;
  commands = apply_filter (text "tcp") ∷ [];
  disconnected = false;
  read = timeout_expired;
  receiver_alive = true;
}

abbrev stopping : Turn
stopping = record filtering { commands = stop ∷ [] }

stop_capture-is_over_example :
    is_over (run_capture_loop (λ expr. none) (filtering ∷ (stopping ∷ [])) (fresh [])).1 ≡ false
unfolding new stop_capture request_stop send join_timeout
stop_capture-is_over_example =
    stop_capture-is_over (λ expr. none) capturing control ending (filtering ∷ (stopping ∷ []))
      (fresh []) refl refl refl refl

abbrev table : Session world.Nft
table = record {
  app = record (new [] false) { rows_snapshot = sshd ∷ (curl ∷ []) };
  control = start;
}

block_user-AreDone_example :
    AreDone (text "ann") (sshd ∷ (curl ∷ [])) (user_blocking world status_file (text "ann") table)
    × ((block_user world status_file (text "ann") table).app.blocked_pids
        ≡ (user_blocking world status_file (text "ann") table).session.app.blocked_pids)
    × ((block_user world status_file (text "ann") table).app.status_snapshot
        ≡ block_user_status
            (text "ann")
            (user_blocking world status_file (text "ann") table).labels
            (user_blocking world status_file (text "ann") table).errors)
block_user-AreDone_example = block_user-AreDone world status_file (text "ann") table

chart_histories-sum_example :
    (get_or (chart_histories (sshd ∷ (curl ∷ [])) none).0 3 0
      ≡ min (total_tx 3 (sshd ∷ (curl ∷ []))) u64_max)
    × (get_or (chart_histories (sshd ∷ (curl ∷ [])) none).1 3 0
        ≡ min (total_rx 3 (sshd ∷ (curl ∷ []))) u64_max)
chart_histories-sum_example = chart_histories-sum (sshd ∷ (curl ∷ [])) 3 (omega arith)

abbrev sample : HistoryCsvRow
sample = record {
  timestamp = 7;
  pid = 42;
  tid = 43;
  process = text "a,b";
  thread = text "main";
  user = text "ann";
  uid = 5;
  tx_bytes_total = 900;
  rx_bytes_total = 20;
  tx_2s_avg = 5;
  rx_2s_avg = 1;
  tx_10s_avg = 5;
  rx_10s_avg = 1;
}

abbrev samples : List HistoryCsvRow
samples = sample ∷ (record sample { timestamp = 6 } ∷ [])

abbrev recorded : NetmonApp
recorded = record (new [] false) { session_history_snapshot = samples }

abbrev disk : Disk
disk = record { home = text "/root"; ts = 9; create_error = none; writes = λ n. true }

some_samples : samples ≢ []
some_samples p = cc p

export_csv-csv_lines_example :
    ((export_csv disk recorded).1 ≡ some (header ++ csv_lines (sort_history samples)))
    × IsSortedHistory (sort_history samples)
    × Perm (sort_history samples) samples
export_csv-csv_lines_example = export_csv-csv_lines disk recorded some_samples refl (λ n. refl)
