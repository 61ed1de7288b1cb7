-- ===== src/Gui/Session/Drained.antt =====
-- What one reading of the status channel leaves.
use netmon.Base.{
  ◌≡◌, refl, ap, ◌∙◌, Bool, true, false, not, ◌&&◌, ◌||◌, List, [], ◌∷◌, Option, none, some, arith,
}
use netmon.Base.Text.{Text, text, strip_prefix, starts_with}
use netmon.Capture.Control.{Joined}
use netmon.Gui.Types.{NetmonApp}
use netmon.Gui.Session.{
  applied_filter, stop_on, handle_status, handle_statuses, update_status_from_channel,
}
use netmon.Gui.Session.Held.{is_held}

abbrev pub filter_or : Option Text → Text → Text
filter_or none f = f
filter_or (some expr) f = expr

-- The filter that the last "Filter applied" message names.
abbrev pub last_filter : List Text → Text → Text
last_filter [] f = f
last_filter (msg ∷ rest) f =
    last_filter rest (filter_or (strip_prefix (text "Filter applied: ") msg) f)

abbrev pub last_status : List Text → Text → Text
last_status [] s = s
last_status (msg ∷ rest) s = last_status rest msg

-- Whether a message says that the capture has stopped.
abbrev pub reports_stop : List Text → Bool
reports_stop [] = false
reports_stop (msg ∷ rest) = starts_with (text "Capture stopped:") msg || reports_stop rest

abbrev pub AreHandled : List Text → NetmonApp → NetmonApp → Type 0
AreHandled msgs a b =
    (b.active_filter ≡ last_filter msgs a.active_filter)
    × (b.status_snapshot ≡ last_status msgs a.status_snapshot)
    × (b.is_capturing ≡ (a.is_capturing && not (reports_stop msgs)))
    × (is_held b.capture_control ≡ (is_held a.capture_control && not (reports_stop msgs)))
    × (b.capture_running ≡ (a.capture_running && not (reports_stop msgs)))
    × (b.status_rx ≡ a.status_rx)

handle_status-AreHandled :
    (j : Joined) (msg : Text) (a : NetmonApp) → AreHandled (msg ∷ []) a (handle_status j msg a)
unfolding handle_status
handle_status-AreHandled j msg a =
    go (strip_prefix (text "Filter applied: ") msg) (starts_with (text "Capture stopped:") msg)
  where
    go :
        (o : Option Text) (b : Bool)
        → ((stop_on j b (applied_filter o a)).active_filter ≡ filter_or o a.active_filter)
          × (msg ≡ msg)
          × ((stop_on j b (applied_filter o a)).is_capturing ≡ (a.is_capturing && not (b || false)))
          × (is_held (stop_on j b (applied_filter o a)).capture_control
              ≡ (is_held a.capture_control && not (b || false)))
          × ((stop_on j b (applied_filter o a)).capture_running
              ≡ (a.capture_running && not (b || false)))
          × ((stop_on j b (applied_filter o a)).status_rx ≡ a.status_rx)
    go none true = (refl, refl, ground arith, ground arith, ground arith, refl)
    go none false = (refl, refl, ground arith, ground arith, ground arith, refl)
    go (some x) true = (refl, refl, ground arith, ground arith, ground arith, refl)
    go (some x) false = (refl, refl, ground arith, ground arith, ground arith, refl)

handle_statuses-AreHandled :
    (j : Joined) (msgs : List Text) (a : NetmonApp) → AreHandled msgs a (handle_statuses j msgs a)
unfolding handle_statuses
handle_statuses-AreHandled j [] a = (refl, refl, ground arith, ground arith, ground arith, refl)
handle_statuses-AreHandled j (msg ∷ rest) a =
    let (f, s, c, k, r, q) = handle_status-AreHandled j msg a in
    let (f', s', c', k', r', q') = handle_statuses-AreHandled j rest (handle_status j msg a) in
    (
      f' ∙ ap (last_filter rest) f,
      s' ∙ ap (last_status rest) s,
      ground arith,
      ground arith,
      ground arith,
      q' ∙ q,
    )

-- Reading the status channel takes every message that waits. Afterwards the filter shown is that of
-- the last "Filter applied" message, or as before, so a refused expression keeps it; the status is
-- the last message, if any; and the capture is off, with no control held and the flag cleared, if a
-- message reports a stop, and is otherwise as before.
pub update_status_from_channel-AreHandled :
    (j : Joined) (a : NetmonApp)
    → ((update_status_from_channel j a).status_rx ≡ [])
      × AreHandled a.status_rx (record a { status_rx = [] }) (update_status_from_channel j a)
unfolding update_status_from_channel
update_status_from_channel-AreHandled j a =
    let (f, s, c, k, r, q) =
      handle_statuses-AreHandled j a.status_rx (record a { status_rx = [] }) in
    (q, (f, s, c, k, r, q))
