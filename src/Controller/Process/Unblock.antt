-- ===== src/Controller/Process/Unblock.antt =====
-- What removing the rules of a process does to the chain.
use netmon.Base.{ℕ, ◌≡◌, refl, sym, ap, ◌∙◌, subst, true, false, List, [], ◌∷◌, ◌++◌, ℕ_eq}
use mathlib.Core.List.{append-nil}
use netmon.Base.Text.{Text, text, lines}
use netmon.HashMap.{get, remove}
use netmon.Controller.Handles.{handles_of_lines, pid_marker}
use netmon.Controller.Nft.{
  NftApi, Rule, without_all, marked, Reply, exited, not_found, not_spawned, not_written,
  not_awaited, succeeded, delete_rule, list_handles,
}
use netmon.Controller.Listing.{listed-marked}
use netmon.Controller.Action.{
  Result, ok, err, Control, Action, pure, raise, ◌>>=◌, command_result, listing_result, run,
  run_nft_command, find_rule_handles, delete_rules,
}
use netmon.Controller.Process.{or_empty, tracked_or_listed, remove_rules, unblock_process}

-- A call that ends well has a first part that does.
pub bind-eq-ok :
    {Nft A B : Type 0} (m : Result A × Control Nft) (f : A → Action Nft B) (c' : Control Nft)
    (b : B)
    → (elim m.0 [ ok a ↦ f a m.1 | err e ↦ raise e m.1 ]) ≡ (ok b, c')
    → (a : A) × (m.0 ≡ ok a) × (f a m.1 ≡ (ok b, c'))
bind-eq-ok (ok a, d) f c' b h = (a, refl, h)
bind-eq-ok (err e, d) f c' b h = cc (ap (λ r. r.0) h)

pub command_result-succeeded :
    (reply : Reply) → command_result false reply ≡ ok tt → succeeded reply ≡ true
unfolding command_result
command_result-succeeded (not_found e) h = cc
command_result-succeeded (not_spawned e) h = cc
command_result-succeeded (not_written e) h = cc
command_result-succeeded (not_awaited e) h = cc
command_result-succeeded (exited true out error) h = refl
command_result-succeeded (exited false out error) h = cc

-- A listing that ended well gave an output.
pub listing-eq-ok :
    (a b : Text) (reply : Reply) (out : Text)
    → listing_result a b reply ≡ ok out
    → (error : Text) × (reply ≡ exited true out error)
unfolding listing_result
listing-eq-ok a b (not_found e) out h = cc
listing-eq-ok a b (not_spawned e) out h = cc
listing-eq-ok a b (not_written e) out h = cc
listing-eq-ok a b (not_awaited e) out h = cc
listing-eq-ok a b (exited true o error) out h = (error, cc)
listing-eq-ok a b (exited false o error) out h = cc

pub ok-injective : {A : Type 0} {a b : A} → ok a ≡ ok b → a ≡ b
ok-injective p = cc p

abbrev pub or_marked : List ℕ → Text → List Rule → List ℕ
or_marked [] marker rs = marked marker rs
or_marked (h ∷ hs) marker rs = h ∷ hs

module _ (api : NftApi) where
  open api use {Nft, execute, chain, listing_keeps, deleted}

  delete_rules-eq-ok :
      (hs : List ℕ) (c c' : Control Nft)
      → delete_rules api hs c ≡ (ok tt, c')
      → (chain c'.nft ≡ without_all hs (chain c.nft)) × (c'.rules ≡ c.rules)
  unfolding delete_rules run_nft_command
  delete_rules-eq-ok [] c c' h = (ap (λ r. chain r.1.nft) (sym h), ap (λ r. r.1.rules) (sym h))
  delete_rules-eq-ok (x ∷ hs) c c' h =
      let (u, e, rest) =
        bind-eq-ok (run_nft_command api (delete_rule x) false c) (λ _. delete_rules api hs) c' tt
          h in
      let (p, q) = delete_rules-eq-ok hs (run_nft_command api (delete_rule x) false c).1 c' rest in
      (p ∙ ap (without_all hs) (deleted c.nft x (command_result-succeeded _ e)), q)

  -- A search of the listing finds the rules with the marker, and changes nothing.
  pub find-eq-ok :
      (pid : ℕ) (suffix : Text) (c c' : Control Nft) (hs : List ℕ)
      → find_rule_handles api (pid_marker pid ++ suffix) c ≡ (ok hs, c')
      → (hs ≡ marked (pid_marker pid ++ suffix) (chain c.nft))
        × (chain c'.nft ≡ chain c.nft)
        × (c'.rules ≡ c.rules)
  unfolding find_rule_handles
  find-eq-ok pid suffix c c' hs h =
      let (out, e, rest) =
        bind-eq-ok (listing c) (λ stdout. pure (handles_of_lines marker (lines stdout))) c' hs h in
      let (error, r) = listing-eq-ok _ _ _ out e in
      (
        sym (ok-injective (ap (λ p. p.0) rest)) ∙ listed-marked api c.nft out error pid suffix r,
        ap (λ p. chain p.1.nft) (sym rest) ∙ listing_keeps c.nft,
        ap (λ p. p.1.rules) (sym rest),
      )
    where
      marker : Text
      marker = pid_marker pid ++ suffix

      listing : (d : Control Nft) → Result Text × Control Nft
      listing =
          run api list_handles []
            (listing_result (text "failed to run nft list -a: ") (text "nft list -a failed: "))

  -- The same, with the marker of the process alone.
  pub find_pid-eq-ok :
      (pid : ℕ) (c c' : Control Nft) (hs : List ℕ)
      → find_rule_handles api (pid_marker pid) c ≡ (ok hs, c')
      → (hs ≡ marked (pid_marker pid) (chain c.nft))
        × (chain c'.nft ≡ chain c.nft)
        × (c'.rules ≡ c.rules)
  find_pid-eq-ok pid c c' hs =
      subst
        (λ m.
          find_rule_handles api m c ≡ (ok hs, c')
          → (hs ≡ marked m (chain c.nft)) × (chain c'.nft ≡ chain c.nft) × (c'.rules ≡ c.rules))
        (append-nil (pid_marker pid)) (find-eq-ok pid [] c c' hs)

  -- The tracked handles of a key, or where there are none those of the rules with a marker.
  abbrev pub removed_handles : ℕ → Text → Control Nft → List ℕ
  removed_handles key marker c = or_marked (or_empty (get key c.rules)) marker (chain c.nft)

  remove_rules-eq-ok :
      (key : ℕ) (marker : Text) (c c' : Control Nft)
      → ((d d' : Control Nft) (hs : List ℕ)
          → find_rule_handles api marker d ≡ (ok hs, d')
          → (hs ≡ marked marker (chain d.nft))
            × (chain d'.nft ≡ chain d.nft)
            × (d'.rules ≡ d.rules))
      → remove_rules api key marker c ≡ (ok tt, c')
      → (chain c'.nft ≡ without_all (removed_handles key marker c) (chain c.nft))
        × (c'.rules ≡ remove key c.rules)
  unfolding remove_rules
  remove_rules-eq-ok key marker c c' find h = go (or_empty (get key c.rules)) h
    where
      d : Control Nft
      d = record c { rules = remove key c.rules }

      go :
          (hs : List ℕ)
          → (tracked_or_listed api hs marker >>= delete_rules api) d ≡ (ok tt, c')
          → (chain c'.nft ≡ without_all (or_marked hs marker (chain c.nft)) (chain c.nft))
            × (c'.rules ≡ remove key c.rules)
      go [] k =
          let (hs, found, rest) =
            bind-eq-ok (find_rule_handles api marker d) (delete_rules api) c' tt k in
          let d' : Control Nft = (find_rule_handles api marker d).1 in
          let (a, b, e) = find d d' hs (ap (λ r. (r, d')) found) in
          let (p, q) = delete_rules-eq-ok hs d' c' rest in
          (p ∙ ap (without_all hs) b ∙ ap (λ xs. without_all xs (chain c.nft)) a, q ∙ e)
      go (x ∷ hs) k = delete_rules-eq-ok (x ∷ hs) d c' k

  -- An unblocking that ends well has deleted the rules whose handles were tracked for the process,
  -- or where none was tracked those whose lines have its marker, and has forgotten its handles.
  pub unblock_process-eq-ok :
      (pid : ℕ) (c c' : Control Nft)
      → unblock_process api pid c ≡ (ok tt, c')
      → (chain c'.nft ≡ without_all (removed_handles pid (pid_marker pid) c) (chain c.nft))
        × (c'.rules ≡ remove pid c.rules)
  unfolding unblock_process
  unblock_process-eq-ok pid c c' h =
      remove_rules-eq-ok pid (pid_marker pid) c c' (λ d d' hs. find_pid-eq-ok pid d d' hs) h
