-- ===== src/Capture/Loop.antt =====
-- The capture thread of crates/capture/src/lib.rs: `run_capture_loop` and `handle_pending_commands`.
--
-- libpcap, the two channels and the `running` flag are the environment: a `Turn` holds what one
-- round of the loop finds there, and `compile` is the answer of `Capture::filter` to an expression
-- (`none` for `Ok(())`, or the error's text).
pub mod Commands
pub mod Recording
pub mod Counted
pub mod Exits
use netmon.Base.{
  ℕ, zero, suc, ◌+◌, Bool, true, false, List, [], ◌∷◌, ◌++◌, Option, none, some, leb, if◌then◌else◌,
}
use netmon.Base.Outcome.{Outcome, ret, err, panicked}
use netmon.Base.Text.{Text, text}
use netmon.Net.{IpAddr}
use netmon.Capture.Types.{FlowRecord}
use netmon.Capture.Packet.{Skip, parse_packet}

pub data CaptureCommand : Type 0 where
  apply_filter : Text → CaptureCommand
  stop : CaptureCommand

-- A frame as libpcap hands it over: its captured bytes, its length on the wire, and the time.
pub record Packet : Type 0 where
  pub bytes : List ℕ
  pub len : ℕ
  pub read_at : ℕ

-- `capture.next_packet()`
pub data Read : Type 0 where
  packet : Packet → Read
  timeout_expired : Read
  read_error : Read

pub record Turn : Type 0 where
  pub running : Bool
  pub commands : List CaptureCommand
  pub disconnected : Bool
  pub read : Read
  pub receiver_alive : Bool

-- The thread's state, with what it has sent and written so far. `written` is the recording, newest
-- last, and `flush_called` counts the packets of it that were written before the last call of
-- `flush`, whose own errors the thread takes no notice of.
pub record Thread : Type 0 where
  pub local_ips : List IpAddr
  pub recording : Bool
  pub packets_since_flush : ℕ
  pub written : List Packet
  pub flush_called : ℕ
  pub active_filter : Option Text
  pub sent : List FlowRecord
  pub statuses : List Text
  pub stored_stop : Bool

-- Why the loop was left. `turns_over` is no exit: the loop still runs.
pub data Exit : Type 0 where
  flag_cleared stop_requested receiver_gone interface_down turns_over : Exit

flush_interval : ℕ
flush_interval = 100

interface_down_status : Text
interface_down_status =
    text "Capture stopped: interface went down. Select an interface and click Start."

-- `parse_packet` as the loop reads its `Option`.
abbrev pub to_option : Outcome Skip FlowRecord → Option FlowRecord
to_option (ret r) = some r
to_option (err e) = none
to_option panicked = none

abbrev pub record_of_packet : List IpAddr → Packet → Option FlowRecord
record_of_packet ips p = to_option (parse_packet p.bytes p.len ips p.read_at)

abbrev pub filter_answer : Text → Option Text → Text
filter_answer expr none = text "Filter applied: " ++ expr
filter_answer expr (some e) = text "BPF error: " ++ e

abbrev filter_after : Thread → Text → Option Text → Option Text
filter_after t expr none = some expr
filter_after t expr (some e) = t.active_filter

module _ (compile : Text → Option Text) where
  unfoldable pub apply_command : Thread → Text → Thread
  apply_command t expr = record t {
    active_filter = filter_after t expr (compile expr);
    statuses = t.statuses ++ (filter_answer expr (compile expr) ∷ []);
  }

  -- The queue ends as empty or as disconnected; `true` asks the loop to stop.
  unfoldable pub handle_pending_commands : List CaptureCommand → Bool → Thread → Thread × Bool
  handle_pending_commands [] disconnected t = (t, disconnected)
  handle_pending_commands (apply_filter expr ∷ rest) disconnected t =
      handle_pending_commands rest disconnected (apply_command t expr)
  handle_pending_commands (stop ∷ rest) disconnected t = (t, true)

-- `if let Some(savefile) = ... { write; count; flush every 100 }`
unfoldable pub save_packet : Packet → Thread → Thread
unfolding flush_interval
save_packet p t =
    if t.recording
    then (if leb flush_interval (t.packets_since_flush + 1)
        then record t {
          written = t.written ++ (p ∷ []);
          flush_called = t.flush_called + (t.packets_since_flush + 1);
          packets_since_flush = 0;
        }
        else record t {
          written = t.written ++ (p ∷ []);
          packets_since_flush = t.packets_since_flush + 1;
        })
    else t

-- `Some` exit is a `break`. A failed send loses the record.
abbrev pub deliver : Option FlowRecord → Bool → Thread → Thread × Option Exit
deliver none alive t = (t, none)
deliver (some r) true t = (record t { sent = t.sent ++ (r ∷ []) }, none)
deliver (some r) false t = (t, some receiver_gone)

unfoldable pub handle_read : Read → Bool → Thread → Thread × Option Exit
unfolding interface_down_status
handle_read (packet p) alive t =
    let saved = save_packet p t in deliver (record_of_packet saved.local_ips p) alive saved
handle_read timeout_expired alive t = (t, none)
handle_read read_error alive t = (
  record t { stored_stop = true; statuses = t.statuses ++ (interface_down_status ∷ []) },
  some interface_down,
)

-- `if let Some(savefile) = ... { savefile.flush() }` behind the loop
unfoldable pub final_flush : Thread → Thread
final_flush t =
    if t.recording then record t { flush_called = t.flush_called + t.packets_since_flush } else t

-- What a round does behind its commands.
abbrev pub after_commands : Turn → Thread × Bool → Thread × Option Exit
after_commands e (t, true) = (t, some stop_requested)
after_commands e (t, false) = handle_read e.read e.receiver_alive t

module _ (compile : Text → Option Text) where
  unfoldable pub turn : Turn → Thread → Thread × Option Exit
  turn e t =
      if e.running
      then after_commands e (handle_pending_commands compile e.commands e.disconnected t)
      else (t, some flag_cleared)

  unfoldable pub run_capture_loop : List Turn → Thread → Thread × Exit
  run_capture_loop [] t = (t, turns_over)
  run_capture_loop (e ∷ es) t =
      let (t', done) = turn e t in
      elim done [ some x ↦ (final_flush t', x) | none ↦ run_capture_loop es t' ]
