-- ===== src/Capture/Tests.antt =====
-- The capture crate on concrete frames and commands.
use netmon.Base.{
  ℕ, ◌≡◌, ◌↔◌, ◌≢◌, refl, inr, true, false, List, [], ◌∷◌, Option, none, some, arith, replicate,
  All, ◌<◌, ◌++◌, map, ◌||◌, ℕ_discrete,
}
use mathlib.Core.List.{Mem}
use mathlib.Core.Bool.{decide}
use netmon.Base.Text.{Text, text}
use netmon.Base.Outcome.{ret, panicked}
use netmon.Net.{IpAddr, v4, IpAddr-discrete}
use netmon.Capture.Types.{rx, FlowRecord}
use netmon.Capture.Packet.{parse_packet, classify_direction, contains_ip}
use netmon.Capture.Packet.RoundTrip.{Ipv4Packet, IsIpv4}
use netmon.Capture.Packet.Frame.{
  tag_8021q, ipv4, frame_bytes, parsed, record_of, parse_packet-frame_bytes,
}
use netmon.Capture.Packet.Records.{IsRecordOf, parse_packet-ne-panicked, parse_packet-IsRecordOf}
use netmon.Capture.Direction.{classify_direction-rx_iff}
use netmon.Capture.Loop.{
  CaptureCommand, apply_filter, stop, packet, read_error, Turn, run_capture_loop,
  handle_pending_commands, filter_answer,
}
use netmon.Capture.Loop.Exits.{is_over, run_capture_loop-is_told_to_stop}
use netmon.Capture.Loop.Recording.{IsLeft, fresh, run_capture_loop-IsLeft}
use netmon.Capture.Loop.Commands.{
  filters_before_stop, has_stop, last_accepted, handle_pending_commands_lem,
}

-- A DNS answer to port 5353 with one word of options, in VLAN 5.
abbrev dns_packet : Ipv4Packet
dns_packet = record {
  ihl = 6;
  tos_to_ttl = (0, 0, 32, 0, 1, 0, 0, 64);
  protocol_number = 17;
  checksum = (0, 0);
  src = (8, 8, 8, 8);
  dst = (10, 0, 0, 2);
  options = 1 ∷ 1 ∷ 1 ∷ 0 ∷ [];
  src_port = 53;
  dst_port = 5353;
  payload = 0 ∷ 8 ∷ [];
}

dns_packet-IsIpv4 : IsIpv4 dns_packet
dns_packet-IsIpv4 = record {
  header = omega arith;
  nibble = omega arith;
  padded = refl;
  transport = inr refl;
}

abbrev macs : List ℕ
macs = replicate 12 2

abbrev dns_frame : List ℕ
dns_frame = frame_bytes macs (tag_8021q 0 5) (ipv4 dns_packet)

abbrev local_ips : List IpAddr
local_ips = v4 10 0 0 2 ∷ []

abbrev dns_record : FlowRecord
dns_record = record_of (parsed (ipv4 dns_packet)) 60 local_ips 7

parse_packet-frame_bytes_example : parse_packet dns_frame 60 local_ips 7 ≡ ret dns_record
parse_packet-frame_bytes_example =
    parse_packet-frame_bytes macs (tag_8021q 0 5) (ipv4 dns_packet) 60 local_ips 7 refl
      dns_packet-IsIpv4

-- The answer counts as received.
dns_direction : dns_record.direction ≡ rx
unfolding classify_direction contains_ip decide IpAddr-discrete ℕ_discrete
dns_direction = refl

parse_packet-ne-panicked_example : parse_packet (1 ∷ 2 ∷ []) 2 local_ips 7 ≢ panicked
parse_packet-ne-panicked_example = parse_packet-ne-panicked (1 ∷ 2 ∷ []) 2 local_ips 7

dns_frame-bytes : All (λ b. b < 256) dns_frame
dns_frame-bytes = ground arith

parse_packet-IsRecordOf_example : IsRecordOf 60 local_ips 7 dns_record
parse_packet-IsRecordOf_example =
    parse_packet-IsRecordOf dns_frame 60 local_ips 7 dns_record dns_frame-bytes
      parse_packet-frame_bytes_example

classify_direction-rx_iff_example :
    (classify_direction local_ips (v4 8 8 8 8) (v4 10 0 0 2) ≡ rx)
    ↔ (¬ Mem (v4 8 8 8 8) local_ips × Mem (v4 10 0 0 2) local_ips)
classify_direction-rx_iff_example = classify_direction-rx_iff local_ips (v4 8 8 8 8) (v4 10 0 0 2)

-- libpcap that knows one expression.
compile : Text → Option Text
compile [] = some (text "empty")
compile (c ∷ rest) = none

abbrev turns : List Turn
turns =
    record {
      running = true;
      commands = apply_filter (text "udp") ∷ [];
      disconnected = false;
      read = packet (record { bytes = dns_frame; len = 60; read_at = 7 });
      receiver_alive = true;
    }
    ∷ record {
      running = true;
      commands = [];
      disconnected = false;
      read = read_error;
      receiver_alive = true;
    }
    ∷ []

run_capture_loop-IsLeft_example :
    IsLeft local_ips
      (run_capture_loop compile turns (fresh local_ips)).0
      (run_capture_loop compile turns (fresh local_ips)).1
run_capture_loop-IsLeft_example = run_capture_loop-IsLeft compile local_ips turns

abbrev queued : List CaptureCommand
queued = apply_filter (text "udp") ∷ apply_filter [] ∷ stop ∷ apply_filter (text "tcp") ∷ []

handle_pending_commands_lem_example :
    handle_pending_commands compile queued false (fresh local_ips) ≡ (
      record (fresh local_ips) {
        active_filter =
            last_accepted compile (fresh local_ips).active_filter (filters_before_stop queued);
        statuses =
            (fresh local_ips).statuses
            ++ map (λ expr. filter_answer expr (compile expr)) (filters_before_stop queued);
      },
      has_stop queued || false,
    )
handle_pending_commands_lem_example =
    handle_pending_commands_lem compile queued false (fresh local_ips)

-- A turn that finds the flag cleared, before one that reads a packet.
abbrev cleared : Turn
cleared = record {
  running = false;
  commands = [];
  disconnected = false;
  read = read_error;
  receiver_alive = true;
}

run_capture_loop-is_told_to_stop_example :
    (is_over
        (run_capture_loop (λ expr. none) ([] ++ (cleared ∷ (cleared ∷ []))) (fresh local_ips)).1
      ≡ false)
    × (run_capture_loop (λ expr. none) ([] ++ (cleared ∷ (cleared ∷ []))) (fresh local_ips)
        ≡ run_capture_loop (λ expr. none) ([] ++ (cleared ∷ [])) (fresh local_ips))
run_capture_loop-is_told_to_stop_example =
    run_capture_loop-is_told_to_stop (λ expr. none) [] cleared (cleared ∷ []) (fresh local_ips) refl
