-- ===== src/Capture/Loop/Counted.antt =====
-- What each part of a turn of the capture loop keeps of its recording.
use mathlib.Core.List.{
  filter_map, filter_map-append, filter_map-cons-none, filter_map-cons-some, append-nil,
}
use netmon.Base.{
  ◌+◌, ◌<◌, ◌≡◌, ◌≢◌, refl, sym, ap, ◌∙◌, Bool, true, false, List, [], ◌∷◌, ◌++◌, Option, none,
  some, arith, length, length-append, Bool-cases, inl, inr,
}
use netmon.Base.Text.{Text}
use netmon.Net.{IpAddr}
use netmon.Capture.Types.{FlowRecord}
use netmon.Capture.Loop.{
  CaptureCommand, Turn, Thread, Packet, Read, packet, timeout_expired, read_error, Exit,
  receiver_gone, turns_over, save_packet, handle_read, final_flush, turn, run_capture_loop, deliver,
  record_of_packet, handle_pending_commands, after_commands,
}
use netmon.Capture.Loop.Commands.{handle_pending_commands_lem}

-- The records of the packets that were written.
abbrev pub recorded : Thread → List FlowRecord
recorded t = filter_map (record_of_packet t.local_ips) t.written

-- A recording whose flush counter agrees with what was written.
pub record IsCounted (ips : List IpAddr) (t : Thread) : Type 0 where
  pub recording : t.recording ≡ true
  pub local_ips : t.local_ips ≡ ips
  pub waiting : t.packets_since_flush < 100
  pub counted : t.flush_called + t.packets_since_flush ≡ length t.written

module _ (ips : List IpAddr) where
  save_packet-IsCounted :
      (p : Packet) (t : Thread) → IsCounted ips t → IsCounted ips (save_packet p t)
  unfolding save_packet
  save_packet-IsCounted p t c = ground (arith, length-append t.written (p ∷ []))

  save_packet-sent :
      (p : Packet) (t : Thread)
      → IsCounted ips t
      → ((save_packet p t).sent ≡ t.sent) × ((save_packet p t).written ≡ t.written ++ (p ∷ []))
  unfolding save_packet
  save_packet-sent p t c = ground arith

  unfoldable pub records : List Packet → List FlowRecord
  records = filter_map (record_of_packet ips)

  records_skipped :
      (p : Packet) (before : List Packet)
      → record_of_packet ips p ≡ none
      → records (before ++ (p ∷ [])) ≡ records before
  unfolding records filter_map
  records_skipped p before n =
      filter_map-append (record_of_packet ips) before (p ∷ [])
      ∙ ap (◌++◌ (records before)) (filter_map-cons-none (record_of_packet ips) p [] n)
      ∙ append-nil (records before)

  records_taken :
      (p : Packet) (before : List Packet) (r : FlowRecord)
      → record_of_packet ips p ≡ some r
      → records (before ++ (p ∷ [])) ≡ records before ++ (r ∷ [])
  unfolding records filter_map
  records_taken p before r e =
      filter_map-append (record_of_packet ips) before (p ∷ [])
      ∙ ap (◌++◌ (records before)) (filter_map-cons-some (record_of_packet ips) p [] e)

  -- What holds behind a round that ended as `x`.
  pub record IsDelivered (t : Thread) (x : Option Exit) : Type 0 where
    pub counted : IsCounted ips t
    pub sent : x ≢ some receiver_gone → t.sent ≡ records t.written
    pub lost : x ≡ some receiver_gone → (r : FlowRecord) × (records t.written ≡ t.sent ++ (r ∷ []))

  deliver_lem :
      (o : Option FlowRecord) (p : Packet) (alive : Bool) (t : Thread) (before : List Packet)
      → record_of_packet ips p ≡ o
      → IsCounted ips t
      → t.written ≡ before ++ (p ∷ [])
      → t.sent ≡ records before
      → IsDelivered (deliver o alive t).0 (deliver o alive t).1
  deliver_lem none p alive t before e c w s = record {
    counted = c;
    sent = λ _. s ∙ sym (ap records w ∙ records_skipped p before e);
    lost = λ q. absurd (cc);
  }
  deliver_lem (some r) p true t before e c w s = record {
    counted = record {
      recording = c.recording;
      local_ips = c.local_ips;
      waiting = c.waiting;
      counted = c.counted;
    };
    sent = λ _. ap (λ rs. rs ++ (r ∷ [])) s ∙ sym (ap records w ∙ records_taken p before r e);
    lost = λ q. absurd (cc);
  }
  deliver_lem (some r) p false t before e c w s = record {
    counted = c;
    sent = λ h. absurd (h refl);
    lost = λ _. (r, ap records w ∙ records_taken p before r e ∙ ap (λ rs. rs ++ (r ∷ [])) (sym s));
  }

  handle_read-IsDelivered :
      (r : Read) (alive : Bool) (t : Thread)
      → IsDelivered t none
      → IsDelivered (handle_read r alive t).0 (handle_read r alive t).1
  unfolding handle_read
  handle_read-IsDelivered (packet p) alive t d =
      let c = save_packet-IsCounted p t d.counted in
      let (s, w) = save_packet-sent p t d.counted in
      deliver_lem _ p alive (save_packet p t) t.written
        (ap (λ is. record_of_packet is p) (sym c.local_ips)) c w (s ∙ d.sent (λ e. cc))
  handle_read-IsDelivered timeout_expired alive t d = d
  handle_read-IsDelivered read_error alive t d =
      let c = d.counted in
      record {
        counted = record {
          recording = c.recording;
          local_ips = c.local_ips;
          waiting = c.waiting;
          counted = c.counted;
        };
        sent = λ _. d.sent (λ e. cc);
        lost = λ q. absurd (cc);
      }

  module _ (compile : Text → Option Text) where
    commands-IsDelivered :
        (commands : List CaptureCommand) (disconnected : Bool) (t : Thread)
        → IsDelivered t none
        → IsDelivered (handle_pending_commands compile commands disconnected t).0 none
    commands-IsDelivered commands disconnected t d =
        let c = d.counted in
        rw (handle_pending_commands_lem compile commands disconnected t) (record {
          counted = record {
            recording = c.recording;
            local_ips = c.local_ips;
            waiting = c.waiting;
            counted = c.counted;
          };
          sent = d.sent;
          lost = d.lost;
        })

    after_commands-IsDelivered :
        (e : Turn) (t : Thread) (stopped : Bool)
        → IsDelivered t none
        → IsDelivered (after_commands e (t, stopped)).0 (after_commands e (t, stopped)).1
    after_commands-IsDelivered e t true d = record {
      counted = d.counted;
      sent = λ _. d.sent (λ q. cc);
      lost = λ q. absurd (cc);
    }
    after_commands-IsDelivered e t false d = handle_read-IsDelivered e.read e.receiver_alive t d

    turn-IsDelivered :
        (e : Turn) (t : Thread)
        → IsDelivered t none
        → IsDelivered (turn compile e t).0 (turn compile e t).1
    unfolding turn
    turn-IsDelivered e t d = elim (Bool-cases e.running) [
      | inl y ↦
          rw y
            (after_commands-IsDelivered e _ _ (commands-IsDelivered e.commands e.disconnected t d))
      | inr n ↦
          rw n
            (record { counted = d.counted; sent = λ _. d.sent (λ q. cc); lost = λ q. absurd (cc) })
    ]

  -- What the loop leaves behind: its final flush covers the recording.
  pub record IsExited (t : Thread) (x : Exit) : Type 0 where
    pub flush_called : x ≢ turns_over → t.flush_called ≡ length t.written
    pub waiting : t.packets_since_flush < 100
    pub sent : x ≢ receiver_gone → t.sent ≡ filter_map (record_of_packet ips) t.written
    pub lost :
        x ≡ receiver_gone
        → (r : FlowRecord) × (filter_map (record_of_packet ips) t.written ≡ t.sent ++ (r ∷ []))

  final_flush-IsExited :
      (t : Thread) (x : Exit) → IsDelivered t (some x) → IsExited (final_flush t) x
  unfolding final_flush records
  final_flush-IsExited t x d =
      let c = d.counted in
      rw c.recording (record {
        flush_called = λ _. c.counted;
        waiting = c.waiting;
        sent = λ n. d.sent (λ e. n (cc));
        lost = λ q. d.lost (ap some q);
      })

  module _ (compile : Text → Option Text) where
    pub loop_lem :
        (es : List Turn) (t : Thread)
        → IsDelivered t none
        → IsExited (run_capture_loop compile es t).0 (run_capture_loop compile es t).1
    unfolding run_capture_loop records
    loop_lem [] t d = record {
      flush_called = λ h. absurd (h refl);
      waiting = d.counted.waiting;
      sent = λ _. d.sent (λ e. cc);
      lost = λ q. absurd (cc);
    }
    loop_lem (e ∷ es) t d =
        next (turn compile e t).1 refl (turn-IsDelivered compile e t d)
          (loop_lem es (turn compile e t).0)
      where
        t' : Thread
        t' = (turn compile e t).0

        next :
            (x : Option Exit)
            → (turn compile e t).1 ≡ x
            → IsDelivered t' x
            → (IsDelivered t' none
                → IsExited (run_capture_loop compile es t').0 (run_capture_loop compile es t').1)
            → IsExited
                (run_capture_loop compile (e ∷ es) t).0
                (run_capture_loop compile (e ∷ es) t).1
        next none q d' ih = rw (q, run_capture_loop) (ih d')
        next (some x) q d' ih = rw (q, run_capture_loop) (final_flush-IsExited t' x d')
