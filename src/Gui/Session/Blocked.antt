-- ===== src/Gui/Session/Blocked.antt =====
-- The capture session does not touch the processes that are shown as blocked.
use netmon.Base.{
  ◌≡◌, refl, ◌∙◌, Bool, true, false, ◌||◌, List, [], ◌∷◌, Option, none, some, if_cases, get_elem?,
}
use netmon.Base.Text.{Text, text, strip_prefix, starts_with}
use netmon.Resolver.PidMap.{trim}
use netmon.Capture.Control.{
  CaptureControl, CaptureError, request_filter, Joined, Spawned, started, failed,
  spawn_capture_thread,
}
use netmon.Gui.Types.{NetmonApp}
use netmon.Gui.Session.{
  Launch, Ending, is_nil, recording_path, after_spawn, start_on, start_capture, stop_capture,
  restart_capture_for_interface_change, toggle_capture, apply_expression, bpf_error, filter_through,
  apply_bpf_filter, applied_filter, stop_on, handle_status, handle_statuses,
  update_status_from_channel,
}

abbrev pub SameBlocked : NetmonApp → NetmonApp → Type 0
SameBlocked a b = b.blocked_pids ≡ a.blocked_pids

after_spawn-SameBlocked :
    (iface path : Text) (s : Spawned) (a : NetmonApp) → SameBlocked a (after_spawn iface path s a)
unfolding after_spawn
after_spawn-SameBlocked iface path (started s) a = refl
after_spawn-SameBlocked iface path (failed e) a = refl

start_capture-SameBlocked : (e : Launch) (a : NetmonApp) → SameBlocked a (start_capture e a)
unfolding start_capture
start_capture-SameBlocked e a =
    if_cases (SameBlocked a) (a.is_capturing || is_nil a.devices) a _ (λ y. refl)
      (λ n. started_on (get_elem? a.devices a.selected_iface))
  where
    started_on : (o : Option Text) → SameBlocked a (start_on e o a)
    started_on none = refl
    started_on (some iface) =
        after_spawn-SameBlocked iface (recording_path e)
          (spawn_capture_thread e.opening iface [] (some (recording_path e)))
          (record a { capture_running = true })

stop_capture-SameBlocked : (e : Ending) (a : NetmonApp) → SameBlocked a (stop_capture e a)
unfolding stop_capture
stop_capture-SameBlocked e a = if_cases (SameBlocked a) a.is_capturing _ a (λ y. refl) (λ n. refl)

pub restart-SameBlocked :
    (ending : Ending) (launch : Launch) (a : NetmonApp)
    → SameBlocked a (restart_capture_for_interface_change ending launch a)
unfolding restart_capture_for_interface_change
restart-SameBlocked ending launch a =
    if_cases (SameBlocked a) a.is_capturing (start_capture launch (stop_capture ending a))
      (stop_capture ending a)
      (λ y.
        start_capture-SameBlocked launch (stop_capture ending a)
        ∙ stop_capture-SameBlocked ending a)
      (λ n. stop_capture-SameBlocked ending a)

pub toggle_capture-SameBlocked :
    (ending : Ending) (launch : Launch) (a : NetmonApp)
    → SameBlocked a (toggle_capture ending launch a)
unfolding toggle_capture
toggle_capture-SameBlocked ending launch a =
    if_cases (SameBlocked a) a.is_capturing (stop_capture ending a) (start_capture launch a)
      (λ y. stop_capture-SameBlocked ending a) (λ n. start_capture-SameBlocked launch a)

bpf_error-SameBlocked : (e : Option CaptureError) (a : NetmonApp) → SameBlocked a (bpf_error e a)
bpf_error-SameBlocked none a = refl
bpf_error-SameBlocked (some e) a = refl

pub apply_bpf_filter-SameBlocked :
    (receiving : Bool) (a : NetmonApp) → SameBlocked a (apply_bpf_filter receiving a)
unfolding apply_bpf_filter
apply_bpf_filter-SameBlocked receiving a = by_control a.capture_control (trim a.bpf_input)
  where
    applied :
        (expr : Text) (control : CaptureControl)
        → SameBlocked a (apply_expression receiving expr control a)
    applied [] control = refl
    applied (x ∷ expr) control =
        bpf_error-SameBlocked (request_filter receiving (x ∷ expr) control).0
          (record a { capture_control = some (request_filter receiving (x ∷ expr) control).1 })

    by_control :
        (o : Option CaptureControl) (expr : Text) → SameBlocked a (filter_through receiving a o)
    by_control none expr = refl
    by_control (some control) expr = applied (trim a.bpf_input) control

handle_status-SameBlocked :
    (j : Joined) (msg : Text) (a : NetmonApp) → SameBlocked a (handle_status j msg a)
unfolding handle_status
handle_status-SameBlocked j msg a =
    go (strip_prefix (text "Filter applied: ") msg) (starts_with (text "Capture stopped:") msg)
  where
    go : (o : Option Text) (b : Bool) → SameBlocked a (stop_on j b (applied_filter o a))
    go none true = refl
    go none false = refl
    go (some x) true = refl
    go (some x) false = refl

handle_statuses-SameBlocked :
    (j : Joined) (msgs : List Text) (a : NetmonApp) → SameBlocked a (handle_statuses j msgs a)
unfolding handle_statuses
handle_statuses-SameBlocked j [] a = refl
handle_statuses-SameBlocked j (msg ∷ rest) a =
    handle_statuses-SameBlocked j rest (handle_status j msg a) ∙ handle_status-SameBlocked j msg a

pub update_status_from_channel-SameBlocked :
    (j : Joined) (a : NetmonApp) → SameBlocked a (update_status_from_channel j a)
unfolding update_status_from_channel
update_status_from_channel-SameBlocked j a =
    handle_statuses-SameBlocked j a.status_rx (record a { status_rx = [] })
