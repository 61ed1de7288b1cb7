-- ===== src/Gui/Session/Ends.antt =====
-- Stopping a capture in the user interface ends the loop of its thread.
use netmon.Base.{
  ◌≡◌, refl, sym, ◌||◌, Bool-cases, inl, inr, ap, ◌∙◌, true, false, List, [], ◌∷◌, ◌++◌, Option,
  some, arith,
}
use netmon.Base.Text.{Text}
use netmon.Capture.Loop.{CaptureCommand, apply_filter, stop, Turn, Thread, run_capture_loop}
use netmon.Capture.Loop.Commands.{has_stop}
use netmon.Capture.Loop.Exits.{is_told_to_stop, is_over, run_capture_loop-is_told_to_stop}
use netmon.Capture.Control.{Joined, CaptureControl, send, request_stop, join_timeout}
use netmon.Gui.Types.{NetmonApp}
use netmon.Gui.Session.{Ending, stopped, stop_capture}

has_stop-append : (cs ds : List CaptureCommand) → has_stop (cs ++ ds) ≡ (has_stop cs || has_stop ds)
has_stop-append [] ds = refl
has_stop-append (apply_filter expr ∷ cs) ds = has_stop-append cs ds
has_stop-append (stop ∷ cs) ds = refl

request_stop-has_stop :
    (control : CaptureControl) → has_stop (request_stop true control).1.sent ≡ true
unfolding request_stop send
request_stop-has_stop control = has_stop-append control.sent (stop ∷ []) ∙ ground arith

-- The commands that the thread finds in all its turns, in their order.
abbrev pub delivered : List Turn → List CaptureCommand
delivered [] = []
delivered (e ∷ es) = e.commands ++ delivered es

-- What was sent through the control that was let go last.
abbrev pub last_sent : List CaptureControl → List CaptureCommand
last_sent [] = []
last_sent (c ∷ []) = c.sent
last_sent (c ∷ (d ∷ cs)) = last_sent (d ∷ cs)

last_sent-append :
    (cs : List CaptureControl) (c : CaptureControl) → last_sent (cs ++ (c ∷ [])) ≡ c.sent
last_sent-append [] c = refl
last_sent-append (d ∷ []) c = refl
last_sent-append (d ∷ (e ∷ cs)) c = last_sent-append (e ∷ cs) c

-- The turn in which the thread finds a `Stop`.
stop_turn :
    (es : List Turn)
    → has_stop (delivered es) ≡ true
    → (before : List Turn) × (turn : Turn) × (after : List Turn) × (es ≡ before ++ (turn ∷ after))
      × (has_stop turn.commands ≡ true)
stop_turn [] h = cc h
stop_turn (e ∷ es) h = elim (Bool-cases (has_stop e.commands)) [
  | inl y ↦ ([], e, es, refl, y)
  | inr n ↦
      let (before, turn, after, p, q) =
        stop_turn es (rw n at (sym (has_stop-append e.commands (delivered es)) ∙ h)) in
      (e ∷ before, turn, after, ap (◌∷◌ e) p, q)
]

join_timeout-sent :
    (joined : Joined) (control : CaptureControl)
    → (join_timeout joined control).1.sent ≡ control.sent
unfolding join_timeout
join_timeout-sent joined control = ground arith

-- Stopping a capture that is on and whose control is held, while its thread still receives, ends the
-- thread's loop: in whatever turns the thread finds all the commands that were ever sent through the
-- control, in their order, by the end of these turns it has left its loop.
pub stop_capture-is_over :
    (compile : Text → Option Text) (a : NetmonApp) (control : CaptureControl) (e : Ending)
    (es : List Turn) (t : Thread)
    → a.is_capturing ≡ true
    → a.capture_control ≡ some control
    → e.receiving ≡ true
    → delivered es ≡ last_sent (stop_capture e a).dropped
    → is_over (run_capture_loop compile es t).1 ≡ false
unfolding stop_capture
stop_capture-is_over compile a control e es t on held receiving commands =
    let (before, turn, after, p, q) = stop_turn es (ap has_stop (commands ∙ sent) ∙ queued) in
    ap (λ ts. is_over (run_capture_loop compile ts t).1) p
    ∙ (run_capture_loop-is_told_to_stop compile before turn after t (told turn q)).0
  where
    queued : has_stop (request_stop e.receiving control).1.sent ≡ true
    queued =
        ap (λ r. has_stop (request_stop r control).1.sent) receiving ∙ request_stop-has_stop control

    dropped :
        (stop_capture e a).dropped
        ≡ a.dropped ++ ((join_timeout e.joined (request_stop e.receiving control).1).1 ∷ [])
    dropped = rw on (ap (λ o. a.dropped ++ stopped e o) held)

    sent : last_sent (stop_capture e a).dropped ≡ (request_stop e.receiving control).1.sent
    sent =
        ap last_sent dropped
        ∙ last_sent-append a.dropped (join_timeout e.joined (request_stop e.receiving control).1).1
        ∙ join_timeout-sent e.joined (request_stop e.receiving control).1

    told : (turn : Turn) → has_stop turn.commands ≡ true → is_told_to_stop turn ≡ true
    told turn q = ground (arith, q)
