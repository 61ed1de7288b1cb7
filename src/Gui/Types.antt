-- ===== src/Gui/Types.antt =====
-- The state of the user interface: `NetmonApp` of crates/gui/src/main.rs. Its shared snapshots are
-- fields, since no lock on them is ever poisoned: no thread panics with one held.
use netmon.Base.{ℕ, Bool, true, false, List, [], Option, none, replicate}
use netmon.Base.Text.{Text, text}
use netmon.Capture.Control.{CaptureControl}
use netmon.Aggregator.Types.{ThreadKey, ProcessRow, HistoryCsvRow, InterfaceStats, history_slots}

pub data SortColumn : Type 0 where
  pid tid process thread user protocol_mix tx_rate rx_rate tx_total rx_total : SortColumn

unfoldable pub SortColumn-discrete : Discrete SortColumn
SortColumn-discrete = hlevel

-- `InterfaceStats::default`
unfoldable pub default_interface : InterfaceStats
default_interface = record {
  tx_bytes_total = 0;
  rx_bytes_total = 0;
  current_bandwidth_bytes_per_sec = 0;
  peak_bandwidth_bytes_per_sec = 0;
  tx_history = replicate history_slots 0;
  rx_history = replicate history_slots 0;
}

-- `devices` holds the names. `status_rx` holds the messages that wait in the status channel, oldest
-- first, and `dropped` the capture controls that the interface has let go, with what they had sent.
pub record NetmonApp : Type 0 where
  pub devices : List Text
  pub selected_iface : ℕ
  pub capture_control : Option CaptureControl
  pub capture_running : Bool
  pub app_running : Bool
  pub aggregator_control : Bool
  pub rows_snapshot : List ProcessRow
  pub interface_snapshot : InterfaceStats
  pub status_snapshot : Text
  pub blocked_pids : List ℕ
  pub status_rx : List Text
  pub selected_thread : Option ThreadKey
  pub sort_column : SortColumn
  pub sort_ascending : Bool
  pub is_capturing : Bool
  pub bpf_input : Text
  pub show_bits : Bool
  pub active_filter : Text
  pub chart_window_seconds : ℕ
  pub rate_limit_kbps_input : Text
  pub session_history_snapshot : List HistoryCsvRow
  pub capture_recording_path : Option Text
  pub pending_block : Option (ℕ × Text)
  pub virtualization_warning : Bool
  pub dropped : List CaptureControl

abbrev default_chart_window_seconds : ℕ
default_chart_window_seconds = 60

-- `NetmonApp::new`, on the devices that libpcap lists, none where that fails.
unfoldable pub new : List Text → Bool → NetmonApp
unfolding default_interface
new devices virtualbox = record {
  devices = devices;
  selected_iface = 0;
  capture_control = none;
  capture_running = false;
  app_running = true;
  aggregator_control = true;
  rows_snapshot = [];
  interface_snapshot = default_interface;
  status_snapshot = text "Ready";
  blocked_pids = [];
  status_rx = [];
  selected_thread = none;
  sort_column = pid;
  sort_ascending = true;
  is_capturing = false;
  bpf_input = [];
  show_bits = false;
  active_filter = [];
  chart_window_seconds = default_chart_window_seconds;
  rate_limit_kbps_input = text "1024";
  session_history_snapshot = [];
  capture_recording_path = none;
  pending_block = none;
  virtualization_warning = virtualbox;
  dropped = [];
}

abbrev pub set_status : Text → NetmonApp → NetmonApp
set_status message a = record a { status_snapshot = message }
