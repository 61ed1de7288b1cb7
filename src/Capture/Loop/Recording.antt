-- ===== src/Capture/Loop/Recording.antt =====
-- The recording: when a flush of it is called, and how it relates to the records that were sent.
use mathlib.Core.List.{filter_map}
use netmon.Base.{
  ◌∷◌, ◌++◌, ◌<◌, ◌≡◌, ◌≢◌, refl, true, false, List, [], Option, none, arith, length, inl, inr, ◌⊎◌,
}
use netmon.Base.Text.{Text}
use netmon.Net.{IpAddr}
use netmon.Capture.Types.{FlowRecord}
use netmon.Capture.Loop.{
  Turn, Thread, Exit, receiver_gone, turns_over, run_capture_loop, record_of_packet,
}
use netmon.Capture.Loop.Counted.{records, IsExited, loop_lem}

-- Nothing is written or sent yet.
abbrev pub fresh : List IpAddr → Thread
fresh ips = record {
  local_ips = ips;
  recording = true;
  packets_since_flush = 0;
  written = [];
  flush_called = 0;
  active_filter = none;
  sent = [];
  statuses = [];
  stored_stop = false;
}

unfoldable Exit-discrete : Discrete Exit
Exit-discrete = hlevel

-- What holds of the thread when its loop has ended as `x`.
pub record IsLeft (ips : List IpAddr) (t : Thread) (x : Exit) : Type 0 where
  pub flush_called : (x ≡ turns_over) ⊎ (t.flush_called ≡ length t.written)
  pub waiting : t.packets_since_flush < 100
  pub sent :
      ((x ≢ receiver_gone) × (t.sent ≡ filter_map (record_of_packet ips) t.written))
      ⊎ ((x ≡ receiver_gone)
          × (r : FlowRecord) × (filter_map (record_of_packet ips) t.written ≡ t.sent ++ (r ∷ [])))

unless {ℓ} : {P : Type ℓ} (x y : Exit) → (x ≢ y → P) → (x ≡ y) ⊎ P
unless x y f = elim (Exit-discrete x y) [ yes p ↦ inl p | no n ↦ inr (f n) ]

IsExited-IsLeft : (ips : List IpAddr) (t : Thread) (x : Exit) → IsExited ips t x → IsLeft ips t x
IsExited-IsLeft ips t x l = record {
  flush_called = unless x turns_over l.flush_called;
  waiting = l.waiting;
  sent = elim (Exit-discrete x receiver_gone) [
    | yes p ↦ inr (p, (l.lost p).0, (l.lost p).1)
    | no n ↦ inl (n, l.sent n)
  ];
}

-- A thread that records starts with nothing written. Whatever commands, packets, timeouts and read
-- errors it then meets, once its turns are over or its loop has exited fewer than 100 packets have
-- been written since the last flush but the final one, and if the loop has exited a flush has been
-- called behind the last packet written. The records sent to the aggregator are exactly those of the
-- packets in the recording, in order, unless the loop exited because the receiver was gone: then the
-- last of those records, and no other, was not sent.
pub run_capture_loop-IsLeft :
    (compile : Text → Option Text) (ips : List IpAddr) (es : List Turn)
    → IsLeft ips
        (run_capture_loop compile es (fresh ips)).0
        (run_capture_loop compile es (fresh ips)).1
unfolding records filter_map
run_capture_loop-IsLeft compile ips es = IsExited-IsLeft ips _ _ (
    loop_lem ips compile es (fresh ips) (record {
      counted = record {
        recording = refl;
        local_ips = refl;
        waiting = omega arith;
        counted = refl;
      };
      sent = λ _. refl;
      lost = λ q. absurd (cc);
    }))
