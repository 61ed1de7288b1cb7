-- ===== src/Capture/Loop/Commands.antt =====
-- The command queue: what `handle_pending_commands` answers and when it stops the loop.
use netmon.Base.{
  ◌≡◌, refl, ◌∙◌, Bool, true, false, ◌||◌, List, [], ◌∷◌, ◌++◌, map, Option, none, some, arith,
}
use mathlib.Core.List.{append_assoc, append-nil}
use netmon.Base.Text.{Text}
use netmon.Capture.Loop.{
  CaptureCommand, apply_filter, stop, Thread, filter_answer, apply_command, handle_pending_commands,
}

-- The expressions that stand before the first `Stop`.
abbrev pub filters_before_stop : List CaptureCommand → List Text
filters_before_stop [] = []
filters_before_stop (apply_filter expr ∷ rest) = expr ∷ filters_before_stop rest
filters_before_stop (stop ∷ rest) = []

abbrev pub has_stop : List CaptureCommand → Bool
has_stop [] = false
has_stop (apply_filter expr ∷ rest) = has_stop rest
has_stop (stop ∷ rest) = true

-- The filter in force after some expressions: the last that libpcap accepted.
abbrev pub last_accepted : (Text → Option Text) → Option Text → List Text → Option Text
last_accepted compile f [] = f
last_accepted compile f (expr ∷ rest) =
    last_accepted compile (elim (compile expr) [ none ↦ some expr | some e ↦ f ]) rest

module _ (compile : Text → Option Text) where
  -- Commands are answered in order up to the first `Stop`, each with one status; the filter in force
  -- is the last one that libpcap accepted, so a refused expression leaves it alone. The loop is told
  -- to stop exactly when a `Stop` is queued or the control handle is gone. Nothing else changes.
  pub handle_pending_commands_lem :
      (commands : List CaptureCommand) (disconnected : Bool) (t : Thread)
      → handle_pending_commands compile commands disconnected t ≡ (
        record t {
          active_filter = last_accepted compile t.active_filter (filters_before_stop commands);
          statuses =
              t.statuses
              ++ map (λ expr. filter_answer expr (compile expr)) (filters_before_stop commands);
        },
        has_stop commands || disconnected,
      )
  unfolding handle_pending_commands apply_command
  handle_pending_commands_lem [] disconnected t = rw (append-nil t.statuses) refl
  handle_pending_commands_lem (stop ∷ rest) disconnected t = rw (append-nil t.statuses) refl
  handle_pending_commands_lem (apply_filter expr ∷ rest) disconnected t =
      handle_pending_commands_lem rest disconnected (apply_command compile t expr)
      ∙ ground (
        arith,
        append_assoc t.statuses (filter_answer expr (compile expr) ∷ [])
            (map (λ e. filter_answer e (compile e)) (filters_before_stop rest)),
      )
