-- ===== src/Gui/Session/Coherent.antt =====
-- What the session keeps at all times: a capture is on exactly where a control is held.
use netmon.Base.{
  ◌≡◌, refl, ap, ◌∙◌, subst, Bool, true, false, ◌||◌, List, [], ◌∷◌, Option, none, some, arith, All,
  All-append, if_cases, get_elem?,
}
use netmon.Base.Text.{Text, text, strip_prefix, starts_with}
use netmon.Resolver.PidMap.{trim}
use netmon.Capture.Control.{CaptureControl, CaptureError, request_filter, request_stop, Joined}
use netmon.Gui.Types.{NetmonApp}
use netmon.Gui.Session.{
  Launch, Ending, is_nil, recording_path, start_on, start_capture, stopped, stop_capture,
  restart_capture_for_interface_change, toggle_capture, apply_expression, bpf_error, filter_through,
  apply_bpf_filter, applied_filter, joined_only, stop_on, handle_status, handle_statuses,
  update_status_from_channel,
}
use netmon.Gui.Session.Held.{
  is_held, HasHandle, IsCoherent, join_timeout-dropped, send-handle, spawn_capture_thread-HasThread,
  after_spawn-IsCoherent,
}

pub start_capture-IsCoherent :
    (e : Launch) (a : NetmonApp) → IsCoherent a → IsCoherent (start_capture e a)
unfolding start_capture
start_capture-IsCoherent e a c =
    if_cases IsCoherent _ a _ (λ y. c)
      (λ n. started_on (get_elem? a.devices a.selected_iface) (off n))
  where
    off : (a.is_capturing || is_nil a.devices) ≡ false → a.is_capturing ≡ false
    off n = ground arith

    started_on : (o : Option Text) → a.is_capturing ≡ false → IsCoherent (start_on e o a)
    started_on none n = c
    started_on (some iface) n =
        after_spawn-IsCoherent iface (recording_path e) _ (record a { capture_running = true })
          (spawn_capture_thread-HasThread e.opening iface [] (some (recording_path e))) c n

pub stopped-released :
    (e : Ending) (o : Option CaptureControl)
    → All (λ control. control.join_handle ≡ false) (stopped e o)
stopped-released e none = tt
stopped-released e (some control) =
    (join_timeout-dropped e.joined (request_stop e.receiving control).1, tt)

pub stop_capture-IsCoherent :
    (e : Ending) (a : NetmonApp) → IsCoherent a → IsCoherent (stop_capture e a)
unfolding stop_capture
stop_capture-IsCoherent e a c =
    if_cases IsCoherent a.is_capturing _ a
      (λ y. record {
        held = refl;
        handle = tt;
        recorded = refl;
        released =
            All-append _ a.dropped (stopped e a.capture_control) c.released
              (stopped-released e a.capture_control);
      })
      (λ n. c)

pub restart_capture_for_interface_change-IsCoherent :
    (ending : Ending) (launch : Launch) (a : NetmonApp)
    → IsCoherent a
    → IsCoherent (restart_capture_for_interface_change ending launch a)
unfolding restart_capture_for_interface_change
restart_capture_for_interface_change-IsCoherent ending launch a c =
    if_cases IsCoherent a.is_capturing _ _
      (λ y.
        start_capture-IsCoherent launch (stop_capture ending a)
          (stop_capture-IsCoherent ending a c))
      (λ n. stop_capture-IsCoherent ending a c)

pub toggle_capture-IsCoherent :
    (ending : Ending) (launch : Launch) (a : NetmonApp)
    → IsCoherent a
    → IsCoherent (toggle_capture ending launch a)
unfolding toggle_capture
toggle_capture-IsCoherent ending launch a c =
    if_cases IsCoherent a.is_capturing _ _ (λ y. stop_capture-IsCoherent ending a c)
      (λ n. start_capture-IsCoherent launch a c)

bpf_error-IsCoherent :
    (e : Option CaptureError) (a : NetmonApp) → IsCoherent a → IsCoherent (bpf_error e a)
bpf_error-IsCoherent none a c = c
bpf_error-IsCoherent (some e) a c = c

requested-IsCoherent :
    (receiving : Bool) (expr : Text) (a : NetmonApp) (control : CaptureControl)
    → a.capture_control ≡ some control
    → IsCoherent a
    → IsCoherent (apply_expression receiving expr control a)
requested-IsCoherent receiving [] a control p c = c
requested-IsCoherent receiving (x ∷ expr) a control p c =
    bpf_error-IsCoherent (request_filter receiving (x ∷ expr) control).0 _ record {
      held = c.held ∙ ap is_held p;
      handle = send-handle receiving control (x ∷ expr) ∙ subst HasHandle p c.handle;
      recorded = c.recorded;
      released = c.released;
    }

pub apply_bpf_filter-IsCoherent :
    (receiving : Bool) (a : NetmonApp) → IsCoherent a → IsCoherent (apply_bpf_filter receiving a)
unfolding apply_bpf_filter
apply_bpf_filter-IsCoherent receiving a c = by_control a.capture_control refl
  where
    by_control :
        (o : Option CaptureControl)
        → a.capture_control ≡ o
        → IsCoherent (filter_through receiving a o)
    by_control none p = c
    by_control (some control) p = requested-IsCoherent receiving (trim a.bpf_input) a control p c

stop_on-IsCoherent :
    (j : Joined) (b : Bool) (a : NetmonApp) → IsCoherent a → IsCoherent (stop_on j b a)
stop_on-IsCoherent j false a c = c
stop_on-IsCoherent j true a c = record {
  held = refl;
  handle = tt;
  recorded = refl;
  released =
      All-append _ a.dropped (joined_only j a.capture_control) c.released
        (only_joined a.capture_control);
}
  where
    only_joined :
        (o : Option CaptureControl) → All (λ control. control.join_handle ≡ false) (joined_only j o)
    only_joined none = tt
    only_joined (some control) = (join_timeout-dropped j control, tt)

applied_filter-IsCoherent :
    (o : Option Text) (a : NetmonApp) → IsCoherent a → IsCoherent (applied_filter o a)
applied_filter-IsCoherent none a c = c
applied_filter-IsCoherent (some expr) a c = c

handle_statuses-IsCoherent :
    (j : Joined) (msgs : List Text) (a : NetmonApp)
    → IsCoherent a
    → IsCoherent (handle_statuses j msgs a)
unfolding handle_statuses handle_status
handle_statuses-IsCoherent j [] a c = c
handle_statuses-IsCoherent j (msg ∷ rest) a c =
    handle_statuses-IsCoherent j rest (handle_status j msg a) (
      stop_on-IsCoherent j (starts_with (text "Capture stopped:") msg)
        (applied_filter (strip_prefix (text "Filter applied: ") msg) a)
        (applied_filter-IsCoherent (strip_prefix (text "Filter applied: ") msg) a c))

pub update_status_from_channel-IsCoherent :
    (j : Joined) (a : NetmonApp) → IsCoherent a → IsCoherent (update_status_from_channel j a)
unfolding update_status_from_channel
update_status_from_channel-IsCoherent j a c =
    handle_statuses-IsCoherent j a.status_rx (record a { status_rx = [] }) c
