-- ===== src/Gui/Session.antt =====
-- The capture session of crates/gui/src/main.rs: starting, stopping and restarting a capture, its
-- filter, and the status messages. What libpcap, the clock and a join answer is a parameter.
pub mod Coherent
pub mod Held
pub mod Drained
pub mod Blocked
pub mod Ends
use netmon.Base.{
  ℕ, Bool, true, false, ◌||◌, List, [], ◌∷◌, ◌++◌, Option, none, some, get_elem?, if◌then◌else◌,
}
use netmon.Base.Text.{Text, text, strip_prefix, starts_with}
use netmon.Base.Numbers.{decimal}
use netmon.Resolver.PidMap.{trim}
use netmon.Capture.Loop.{Thread}
use netmon.Capture.Control.{
  CaptureControl, CaptureError, to_string, Joined, request_filter, request_stop, join_timeout,
  Opening, Started, Spawned, started, failed, spawn_capture_thread,
}
use netmon.Gui.Types.{NetmonApp, set_status}

-- What a start meets: the home directory, the seconds of the clock, and libpcap's answers.
pub record Launch : Type 0 where
  pub home : Text
  pub ts : ℕ
  pub opening : Opening

-- What a stop meets: whether the thread still receives, and how the join ends.
pub record Ending : Type 0 where
  pub receiving : Bool
  pub joined : Joined

abbrev pub is_nil : List Text → Bool
is_nil [] = true
is_nil (d ∷ ds) = false

-- `{home}/netmon_capture_{ts}.pcap`
unfoldable pub recording_path : Launch → Text
recording_path e = e.home ++ (text "/netmon_capture_" ++ (decimal e.ts ++ text ".pcap"))

unfoldable pub after_spawn : Text → Text → Spawned → NetmonApp → NetmonApp
after_spawn iface path (started s) a =
    set_status (text "Capturing on " ++ (iface ++ text "...")) (record a {
      capture_control = some s.control;
      capture_recording_path = some path;
      is_capturing = true;
      status_rx = a.status_rx ++ s.reported;
    })
after_spawn iface path (failed e) a =
    set_status (text "Failed to start capture on " ++ (iface ++ (text ": " ++ to_string e)))
      (record a { capture_recording_path = none })

abbrev pub start_on : Launch → Option Text → NetmonApp → NetmonApp
start_on e none a = a
start_on e (some iface) a =
    after_spawn iface (recording_path e)
      (spawn_capture_thread e.opening iface [] (some (recording_path e)))
      (record a { capture_running = true })

unfoldable pub start_capture : Launch → NetmonApp → NetmonApp
start_capture e a =
    if a.is_capturing || is_nil a.devices
    then a
    else start_on e (get_elem? a.devices a.selected_iface) a

-- `control.stop()`, then `take` and `join_timeout`.
abbrev pub stopped : Ending → Option CaptureControl → List CaptureControl
stopped e none = []
stopped e (some control) = (join_timeout e.joined (request_stop e.receiving control).1).1 ∷ []

unfoldable pub stop_capture : Ending → NetmonApp → NetmonApp
stop_capture e a =
    if a.is_capturing
    then set_status (text "Capture stopped") (record a {
      capture_running = false;
      capture_control = none;
      dropped = a.dropped ++ stopped e a.capture_control;
      is_capturing = false;
    })
    else a

unfoldable pub restart_capture_for_interface_change : Ending → Launch → NetmonApp → NetmonApp
restart_capture_for_interface_change ending launch a =
    let stopped_app = stop_capture ending a in
    if a.is_capturing then start_capture launch stopped_app else stopped_app

-- The button shows "Stop" or "Start".
unfoldable pub toggle_capture : Ending → Launch → NetmonApp → NetmonApp
toggle_capture ending launch a =
    if a.is_capturing then stop_capture ending a else start_capture launch a

abbrev pub bpf_error : Option CaptureError → NetmonApp → NetmonApp
bpf_error none a = a
bpf_error (some e) a = set_status (text "BPF error: " ++ to_string e) a

-- An expression for the thread that has the control; an empty one is refused.
abbrev pub apply_expression : Bool → Text → CaptureControl → NetmonApp → NetmonApp
apply_expression receiving [] control a =
    set_status (text "Enter a BPF expression before applying it") a
apply_expression receiving (c ∷ expr) control a =
    let (error, control') = request_filter receiving (c ∷ expr) control in
    bpf_error error (record a { capture_control = some control' })

abbrev pub filter_through : Bool → NetmonApp → Option CaptureControl → NetmonApp
filter_through receiving a none = set_status (text "Cannot apply BPF: capture is not running") a
filter_through receiving a (some control) = apply_expression receiving (trim a.bpf_input) control a

unfoldable pub apply_bpf_filter : Bool → NetmonApp → NetmonApp
apply_bpf_filter receiving a = filter_through receiving a a.capture_control

abbrev pub applied_filter : Option Text → NetmonApp → NetmonApp
applied_filter none a = a
applied_filter (some expr) a = record a { active_filter = expr }

abbrev pub joined_only : Joined → Option CaptureControl → List CaptureControl
joined_only j none = []
joined_only j (some control) = (join_timeout j control).1 ∷ []

-- `if msg.starts_with("Capture stopped:") { ... }`
abbrev pub stop_on : Joined → Bool → NetmonApp → NetmonApp
stop_on j false a = a
stop_on j true a = record a {
  is_capturing = false;
  capture_running = false;
  capture_control = none;
  dropped = a.dropped ++ joined_only j a.capture_control;
}

unfoldable pub handle_status : Joined → Text → NetmonApp → NetmonApp
handle_status j msg a = set_status msg (
    stop_on j (starts_with (text "Capture stopped:") msg)
      (applied_filter (strip_prefix (text "Filter applied: ") msg) a))

unfoldable pub handle_statuses : Joined → List Text → NetmonApp → NetmonApp
handle_statuses j [] a = a
handle_statuses j (msg ∷ rest) a = handle_statuses j rest (handle_status j msg a)

-- The loop over `try_recv` takes every message that waits.
unfoldable pub update_status_from_channel : Joined → NetmonApp → NetmonApp
update_status_from_channel j a = handle_statuses j a.status_rx (record a { status_rx = [] })
