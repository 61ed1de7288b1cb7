-- ===== src/Capture/Control.antt =====
-- Starting, commanding and joining a capture thread: `CaptureControl` and `spawn_capture_thread` of
-- crates/capture/src/lib.rs. Whether the thread still receives, what libpcap answers and how a join
-- ends are parameters.
use netmon.Base.{Bool, true, false, List, [], ◌∷◌, ◌++◌, Option, none, some}
use netmon.Base.Text.{Text, text}
use netmon.Net.{IpAddr}
use netmon.Capture.Loop.{CaptureCommand, apply_filter, stop, Thread}

-- The commands sent to the thread, oldest first, and whether its handle is still there: a join takes
-- it, also one that times out while the thread runs on.
pub record CaptureControl : Type 0 where
  pub sent : List CaptureCommand
  pub join_handle : Bool

pub data CaptureError : Type 0 where
  pcap channel_send thread_join : Text → CaptureError

-- `#[error(...)]`
unfoldable pub to_string : CaptureError → Text
to_string (pcap e) = text "pcap error: " ++ e
to_string (channel_send e) = text "capture channel send failed: " ++ e
to_string (thread_join e) = text "capture thread join failed: " ++ e

-- How a thread ended within the timeout, if it did.
pub data Joined : Type 0 where
  returned panicked timed_out : Joined

-- The error of a channel whose receiver is gone.
abbrev closed_channel : Text
closed_channel = text "sending on a closed channel"

module _ (receiving : Bool) where
  unfoldable pub send : CaptureCommand → CaptureControl → Option CaptureError × CaptureControl
  send command control = elim receiving [
    | true ↦ (none, record control { sent = control.sent ++ (command ∷ []) })
    | false ↦ (some (channel_send closed_channel), control)
  ]

  unfoldable pub request_filter : Text → CaptureControl → Option CaptureError × CaptureControl
  request_filter expr = send (apply_filter expr)

  unfoldable pub request_stop : CaptureControl → Option CaptureError × CaptureControl
  request_stop = send stop

-- What a join reports.
unfoldable pub join_result : Joined → Option CaptureError
join_result returned = none
join_result panicked = some (thread_join (text "capture thread panicked"))
join_result timed_out = some (thread_join (text "capture thread join timed out"))

-- `join_timeout`; `join` is the same for a thread that ends.
unfoldable pub join_timeout : Joined → CaptureControl → Option CaptureError × CaptureControl
join_timeout joined control = elim control.join_handle [
  | true ↦ (join_result joined, record control { join_handle = false })
  | false ↦ (none, control)
]

-- The answers of libpcap: the error of `from_device`, that of `open`, and that of `savefile`.
pub record Opening : Type 0 where
  pub from_device : Option Text
  pub open_error : Option Text
  pub savefile : Option Text

-- A started thread: its control, its state once it has sent its first status, and the statuses that
-- were sent before it started.
pub record Started : Type 0 where
  pub control : CaptureControl
  pub thread : Thread
  pub reported : List Text

pub data Spawned : Type 0 where
  started : Started → Spawned
  failed : CaptureError → Spawned

-- Whether a recording is written, and the status that says why not.
unfoldable pub open_savefile : Option Text → Option Text → Bool × List Text
open_savefile none error = (false, [])
open_savefile (some path) none = (true, [])
open_savefile (some path) (some e) = (false, (text "PCAP recording disabled: " ++ e) ∷ [])

unfoldable pub started_thread : Text → List IpAddr → Bool → Thread
started_thread iface local_ips recording = record {
  local_ips = local_ips;
  recording = recording;
  packets_since_flush = 0;
  written = [];
  flush_called = 0;
  active_filter = none;
  sent = [];
  statuses = (text "Capturing on " ++ (iface ++ text "...")) ∷ [];
  stored_stop = false;
}

unfoldable pub spawn_capture_thread : Opening → Text → List IpAddr → Option Text → Spawned
spawn_capture_thread opening iface local_ips recording_path = elim opening.from_device [
  | some e ↦ failed (pcap e)
  | none ↦ elim opening.open_error [
    | some e ↦ failed (pcap e)
    | none ↦
        let (recording, reported) = open_savefile recording_path opening.savefile in
        started record {
          control = record { sent = []; join_handle = true };
          thread = started_thread iface local_ips recording;
          reported = reported;
        }
  ]
]
