-- ===== src/Gui/Steps.antt =====
-- The steps of the user interface of crates/gui/src/main.rs: what the user does in a frame, and what
-- the threads behind it do between frames.
pub mod Kept
pub mod Same
use netmon.Base.{
  ℕ, ◌≤◌, ◌<◌, Bool, true, false, not, List, [], ◌∷◌, ◌++◌, Option, none, some, length,
}
use netmon.Base.Text.{Text}
use netmon.Aggregator.Types.{ProcessRow, HistoryCsvRow, InterfaceStats}
use netmon.Capture.Control.{Joined}
use netmon.Controller.Nft.{NftApi}
use netmon.Controller.Action
use netmon.Gui.Types.{SortColumn, NetmonApp, new}
use netmon.Gui.Sort.{set_sort}
use netmon.Gui.Session.{
  Launch, Ending, toggle_capture, restart_capture_for_interface_change, apply_bpf_filter,
  update_status_from_channel,
}
use netmon.Gui.Control.{
  Session, block_pid, unblock_pid, block_user, limit_bandwidth, confirm_block, ask_block,
  cancel_block,
}
use netmon.Gui.View.{click_row, clear_selection}
use netmon.Gui.Export.{Disk, export_csv, Copying, export_pcap}

abbrev pub with_app : {Nft : Type 0} → (NetmonApp → NetmonApp) → Session Nft → Session Nft
with_app f s = record s { app = f s.app }

-- The widgets that write a field.
unfoldable pub select_interface : ℕ → NetmonApp → NetmonApp
select_interface index a = record a { selected_iface = index }

unfoldable pub edit_filter : Text → NetmonApp → NetmonApp
edit_filter input a = record a { bpf_input = input }

unfoldable pub edit_rate : Text → NetmonApp → NetmonApp
edit_rate input a = record a { rate_limit_kbps_input = input }

unfoldable pub toggle_bits : NetmonApp → NetmonApp
toggle_bits a = record a { show_bits = not a.show_bits }

unfoldable pub drag_window : ℕ → NetmonApp → NetmonApp
drag_window seconds a = record a { chart_window_seconds = seconds }

-- What the aggregator publishes, a message of a capture thread, and the flag that it clears.
unfoldable pub publish :
    List ProcessRow → InterfaceStats → List HistoryCsvRow → NetmonApp → NetmonApp
publish rows interface history a = record a {
  rows_snapshot = rows;
  interface_snapshot = interface;
  session_history_snapshot = history;
}

unfoldable pub send_status : Text → NetmonApp → NetmonApp
send_status message a = record a { status_rx = a.status_rx ++ (message ∷ []) }

unfoldable pub clear_running : NetmonApp → NetmonApp
clear_running a = record a { capture_running = false }

module _ (api : NftApi) (read_to_string : Text → Option Text) where
  open api use {Nft}

  pub data Step : Session Nft → Session Nft → Type 0 where
    capture_toggled :
        (ending : Ending) (launch : Launch) (s : Session Nft)
        → Step s (with_app (toggle_capture ending launch) s)
    interface_selected :
        (index : ℕ) (ending : Ending) (launch : Launch) (s : Session Nft)
        → index < length s.app.devices
        → Step s (
            with_app
              (λ a. restart_capture_for_interface_change ending launch (select_interface index a))
              s)
    filter_edited : (input : Text) (s : Session Nft) → Step s (with_app (edit_filter input) s)
    filter_applied :
        (receiving : Bool) (s : Session Nft) → Step s (with_app (apply_bpf_filter receiving) s)
    bits_toggled : (s : Session Nft) → Step s (with_app toggle_bits s)
    window_dragged :
        (seconds : ℕ) (s : Session Nft)
        → 30 ≤ seconds
        → seconds ≤ 300
        → Step s (with_app (drag_window seconds) s)
    csv_exported :
        (disk : Disk) (s : Session Nft) → Step s (with_app (λ a. (export_csv disk a).0) s)
    pcap_exported :
        (disk : Copying) (s : Session Nft) → Step s (with_app (λ a. (export_pcap disk a).0) s)
    header_clicked : (column : SortColumn) (s : Session Nft) → Step s (with_app (set_sort column) s)
    row_clicked : (row : ProcessRow) (s : Session Nft) → Step s (with_app (click_row row) s)
    escape_pressed : (s : Session Nft) → Step s (with_app clear_selection s)
    rate_edited : (input : Text) (s : Session Nft) → Step s (with_app (edit_rate input) s)
    process_blocked :
        (pid : ℕ) (name : Text) (s : Session Nft) → Step s (block_pid api read_to_string pid name s)
    process_unblocked : (pid : ℕ) (s : Session Nft) → Step s (unblock_pid api pid s)
    user_blocked :
        (username : Text) (s : Session Nft) → Step s (block_user api read_to_string username s)
    bandwidth_limited :
        (pid : ℕ) (name : Text) (s : Session Nft)
        → Step s (limit_bandwidth api read_to_string pid name s)
    block_asked :
        (pid : ℕ) (name : Text) (s : Session Nft) → Step s (with_app (ask_block pid name) s)
    block_confirmed : (s : Session Nft) → Step s (confirm_block api read_to_string s)
    block_cancelled : (s : Session Nft) → Step s (with_app cancel_block s)
    statuses_read :
        (joined : Joined) (s : Session Nft)
        → Step s (with_app (update_status_from_channel joined) s)
    published :
        (rows : List ProcessRow) (interface : InterfaceStats) (history : List HistoryCsvRow)
        (s : Session Nft)
        → Step s (with_app (publish rows interface history) s)
    status_sent : (message : Text) (s : Session Nft) → Step s (with_app (send_status message) s)
    flag_cleared : (s : Session Nft) → Step s (with_app clear_running s)

  -- The sessions that some steps lead to, from one that has just begun with no rule tracked.
  pub data Reach : Session Nft → Type 0 where
    begun :
        (devices : List Text) (virtualbox : Bool) (nft : Nft)
        → Reach record { app = new devices virtualbox; control = record { nft = nft; rules = [] } }
    then_step : {s t : Session Nft} → Reach s → Step s t → Reach t
