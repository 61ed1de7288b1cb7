-- ===== src/Gui/Session/Held.antt =====
-- What the capture of the user interface keeps, and its start.
use netmon.Base.{◌≡◌, refl, Bool, true, false, not, ◌&&◌, List, Option, none, some, arith, All}
use netmon.Base.Text.{Text}
use netmon.Net.{IpAddr}
use netmon.Capture.Control.{
  CaptureControl, send, request_filter, Joined, join_timeout, Opening, Spawned, started, failed,
  spawn_capture_thread,
}
use netmon.Gui.Types.{NetmonApp}
use netmon.Gui.Session.{after_spawn}

abbrev pub is_held {ℓ} : {A : Type ℓ} → Option A → Bool
is_held none = false
is_held (some a) = true

-- No join has taken the handle of the held control.
abbrev pub HasHandle : Option CaptureControl → Type 0
HasHandle none = Unit {0}
HasHandle (some control) = control.join_handle ≡ true

pub record IsCoherentOf (on : Bool) (control : Option CaptureControl) (path : Option Text)
    (dropped : List CaptureControl) : Type 0 where
  -- A capture is on exactly where a control is held.
  pub held : on ≡ is_held control
  pub handle : HasHandle control
  -- While a capture is on, the path of its recording is known.
  pub recorded : (on && not (is_held path)) ≡ false
  -- The handle of every control that was let go was taken by a join, which may have timed out.
  pub released : All (λ c. c.join_handle ≡ false) dropped

abbrev pub IsCoherent : NetmonApp → Type 0
IsCoherent a = IsCoherentOf a.is_capturing a.capture_control a.capture_recording_path a.dropped

pub join_timeout-dropped :
    (j : Joined) (control : CaptureControl) → (join_timeout j control).1.join_handle ≡ false
unfolding join_timeout
join_timeout-dropped j control = ground arith

pub send-handle :
    (receiving : Bool) (control : CaptureControl) (expr : Text)
    → (request_filter receiving expr control).1.join_handle ≡ control.join_handle
unfolding request_filter send
send-handle true control expr = refl
send-handle false control expr = refl

abbrev HasThread : Spawned → Type 0
HasThread (started s) = s.control.join_handle ≡ true
HasThread (failed e) = Unit {0}

pub spawn_capture_thread-HasThread :
    (opening : Opening) (iface : Text) (ips : List IpAddr) (path : Option Text)
    → HasThread (spawn_capture_thread opening iface ips path)
unfolding spawn_capture_thread
spawn_capture_thread-HasThread opening iface ips path = go opening.from_device opening.open_error
  where
    go :
        (from_device open_error : Option Text)
        → HasThread (
            spawn_capture_thread
              (record opening { from_device = from_device; open_error = open_error })
              iface
              ips
              path)
    go (some e) error = tt
    go none (some e) = tt
    go none none = refl

pub after_spawn-IsCoherent :
    (iface path : Text) (s : Spawned) (a : NetmonApp)
    → HasThread s
    → IsCoherent a
    → a.is_capturing ≡ false
    → IsCoherent (after_spawn iface path s a)
unfolding after_spawn
after_spawn-IsCoherent iface path (started s) a h c n = record {
  held = refl;
  handle = h;
  recorded = refl;
  released = c.released;
}
after_spawn-IsCoherent iface path (failed e) a h c n = record {
  held = c.held;
  handle = c.handle;
  recorded = rw n refl;
  released = c.released;
}
