-- ===== src/Capture/Loop/Exits.antt =====
-- The capture loop is left once it is told to stop.
use netmon.Base.{
  ◌≡◌, refl, Bool, true, false, ◌||◌, not, List, [], ◌∷◌, ◌++◌, Option, none, some, ap, Bool-cases,
  inl, inr, Option-cases,
}
use netmon.Base.Text.{Text}
use netmon.Capture.Types.{FlowRecord}
use netmon.Capture.Loop.{
  Read, packet, timeout_expired, read_error, Turn, Thread, Exit, flag_cleared, stop_requested,
  interface_down, turns_over, turn, run_capture_loop, handle_pending_commands, handle_read,
  final_flush, deliver, save_packet, record_of_packet, after_commands,
}
use netmon.Capture.Loop.Commands.{has_stop, handle_pending_commands_lem}

-- The flag is cleared, a `Stop` is queued or the control handle is gone.
abbrev pub is_told_to_stop : Turn → Bool
is_told_to_stop e = not e.running || (has_stop e.commands || e.disconnected)

abbrev pub is_over : Exit → Bool
is_over turns_over = true
is_over x = false

read_exit :
    (r : Read) (alive : Bool) (t : Thread) (x : Exit)
    → (handle_read r alive t).1 ≡ some x
    → is_over x ≡ false
unfolding handle_read
read_exit timeout_expired alive t x h = cc h
read_exit read_error alive t x h = interface h
  where
    interface : some interface_down ≡ some x → is_over x ≡ false
    interface p = cc p
read_exit (packet p) alive t x h = delivered (record_of_packet t'.local_ips p) alive h
  where
    t' : Thread
    t' = save_packet p t

    delivered : (o : Option FlowRecord) (b : Bool) → (deliver o b t').1 ≡ some x → is_over x ≡ false
    delivered none b q = cc q
    delivered (some r) true q = cc q
    delivered (some r) false q = cc q

module _ (compile : Text → Option Text) where
  turn_exit : (e : Turn) (t : Thread) (x : Exit) → (turn compile e t).1 ≡ some x → is_over x ≡ false
  unfolding turn
  turn_exit e t x h = elim (Bool-cases e.running) [
    | inl y ↦ after (handle_pending_commands compile e.commands e.disconnected t) (rw y at h)
    | inr n ↦ flag (rw n at h)
  ]
    where
      flag : some flag_cleared ≡ some x → is_over x ≡ false
      flag p = cc p

      after : (r : Thread × Bool) → (after_commands e r).1 ≡ some x → is_over x ≡ false
      after (s, true) p = cc p
      after (s, false) p = read_exit e.read e.receiver_alive s x p

  turn-is_told_to_stop :
      (e : Turn) (t : Thread)
      → is_told_to_stop e ≡ true
      → (x : Exit) × ((turn compile e t).1 ≡ some x)
  unfolding turn
  turn-is_told_to_stop e t h = elim (Bool-cases e.running) [
    | inl y ↦
        rw (y, handle_pending_commands_lem compile e.commands e.disconnected t, told y)
          ((stop_requested, refl))
    | inr n ↦ rw n ((flag_cleared, refl))
  ]
    where
      told : e.running ≡ true → (has_stop e.commands || e.disconnected) ≡ true
      told y = rw y at h

  abbrev continue : List Turn → Thread → Option Exit → Thread × Exit
  continue es t none = run_capture_loop compile es t
  continue es t (some x) = (final_flush t, x)

  run-continue :
      (e : Turn) (es : List Turn) (t : Thread) (o : Option Exit)
      → (turn compile e t).1 ≡ o
      → run_capture_loop compile (e ∷ es) t ≡ continue es (turn compile e t).0 o
  unfolding run_capture_loop
  run-continue e es t o p = ap (continue es (turn compile e t).0) p

  -- A capture loop that is told to stop in some turn, by its flag, by a `Stop` or by the loss of the
  -- control handle, is left in that turn or before: what would follow changes nothing.
  pub run_capture_loop-is_told_to_stop :
      (before : List Turn) (e : Turn) (after : List Turn) (t : Thread)
      → is_told_to_stop e ≡ true
      → (is_over (run_capture_loop compile (before ++ (e ∷ after)) t).1 ≡ false)
        × (run_capture_loop compile (before ++ (e ∷ after)) t
            ≡ run_capture_loop compile (before ++ (e ∷ [])) t)
  run_capture_loop-is_told_to_stop [] e after t h =
      let (x, p) = turn-is_told_to_stop e t h in
      rw (run-continue e after t (some x) p, run-continue e [] t (some x) p)
        (turn_exit e t x p, refl)
  run_capture_loop-is_told_to_stop (d ∷ before) e after t h =
      elim (Option-cases (turn compile d t).1) [
        | inl n ↦
            rw
              (
                run-continue d (before ++ (e ∷ after)) t none n,
                run-continue d (before ++ (e ∷ [])) t none n,
              )
              (run_capture_loop-is_told_to_stop before e after (turn compile d t).0 h)
        | inr (x, p) ↦
            rw
              (
                run-continue d (before ++ (e ∷ after)) t (some x) p,
                run-continue d (before ++ (e ∷ [])) t (some x) p,
              )
              (turn_exit d t x p, refl)
      ]
