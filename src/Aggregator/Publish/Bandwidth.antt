-- ===== src/Aggregator/Publish/Bandwidth.antt =====
-- The bandwidth that is published beside its peak.
use netmon.Base.{ℕ, ◌+◌, ◌≤◌, ◌≡◌, List, [], ◌∷◌, arith, get_or, length, ◌++◌, refl, sym, subst}
use netmon.Base.Word.{u64_max, wrapping_add, saturating_add_exact, wrapping_add_exact}
use netmon.Aggregator.Publish.{publish_interface}
use netmon.Aggregator.Record.{Counters}
use netmon.Resolver.Api.{ResolverApi}
use netmon.Aggregator.Loop.{Locals, Published, Input, start_locals, turn, run_aggregator_loop}
use netmon.Aggregator.Invariant.Turns.{run_aggregator_loop-IsConsistent}
use netmon.Aggregator.Invariant.{BelowPeak, IsConsistent}

newest_below :
    (peak : ℕ) (xs ys : List ℕ)
    → length xs ≡ 300
    → length ys ≡ 300
    → BelowPeak peak xs ys
    → wrapping_add (get_or xs 0 0) (get_or ys 0 0) ≤ peak
newest_below peak [] ys p q h = absurd (omega arith)
newest_below peak (x ∷ xs) [] p q h = absurd (omega arith)
newest_below peak (x ∷ xs) (y ∷ ys) p q h = h.0

consistent-le-peak :
    (c : Counters)
    → IsConsistent c
    → get_or c.interface.tx_history 0 0 + get_or c.interface.rx_history 0 0 ≤ u64_max
    → (publish_interface c.interface).current_bandwidth_bytes_per_sec
      ≤ (publish_interface c.interface).peak_bandwidth_bytes_per_sec
unfolding publish_interface
consistent-le-peak c v h = omega (
  arith,
  saturating_add_exact _ _ h,
  wrapping_add_exact _ _ h,
  newest_below c.interface.peak_bw c.interface.tx_history c.interface.rx_history
      v.interface.tx_length v.interface.rx_length v.peak,
)

module _ (api : ResolverApi) where
  open api use {Resolver}

  run_append :
      (is : List Input) (i : Input) (s : Locals Resolver × Published)
      → run_aggregator_loop api (is ++ (i ∷ [])) s ≡ turn api i (run_aggregator_loop api is s)
  unfolding run_aggregator_loop
  run_append [] i s = refl
  run_append (x ∷ is) i s = run_append is i (turn api x s)

  turn_interface :
      (i : Input) (s : Locals Resolver × Published)
      → (turn api i s).1.interface ≡ publish_interface (turn api i s).0.counters.interface
  unfolding turn
  turn_interface i s = refl

  -- The bandwidth that the aggregator has published after any turns, at least one, is not above the
  -- peak that it has published with it, if the two newest samples add up to a u64.
  pub run_aggregator_loop-le-peak :
      (is : List Input) (i : Input) (now : ℕ) (resolver : Resolver) (p : Published)
      → let s = run_aggregator_loop api (is ++ (i ∷ [])) (start_locals now resolver, p) in
        get_or s.0.counters.interface.tx_history 0 0 + get_or s.0.counters.interface.rx_history 0 0
          ≤ u64_max
        → s.1.interface.current_bandwidth_bytes_per_sec ≤ s.1.interface.peak_bandwidth_bytes_per_sec
  run_aggregator_loop-le-peak is i now resolver p h =
      let s = run_aggregator_loop api (is ++ (i ∷ [])) (start_locals now resolver, p) in
      subst (λ f. f.current_bandwidth_bytes_per_sec ≤ f.peak_bandwidth_bytes_per_sec)
        (sym published)
        (consistent-le-peak s.0.counters
          (run_aggregator_loop-IsConsistent api (is ++ (i ∷ [])) now resolver p) h)
    where
      before : Locals Resolver × Published
      before = run_aggregator_loop api is (start_locals now resolver, p)

      published :
          (run_aggregator_loop api (is ++ (i ∷ [])) (start_locals now resolver, p)).1.interface
          ≡ publish_interface
              (run_aggregator_loop api
                (is ++ (i ∷ []))
                (start_locals now resolver, p)).0.counters.interface
      published =
          subst (λ s. s.1.interface ≡ publish_interface s.0.counters.interface)
            (sym (run_append is i (start_locals now resolver, p))) (turn_interface i before)
