-- ===== src/Controller/Process/Block.antt =====
-- What blocking a process leaves in the map of rules.
use netmon.Base.{
  ℕ, ◌≡◌, refl, sym, ap, ◌∙◌, subst, Bool, true, false, not, List, [], ◌∷◌, Option, some, ℕ_eq,
}
use netmon.Base.Text.{Text, text}
use netmon.HashMap.{get, insert, remove}
use netmon.HashMap.Laws.{get-insert_self}
use netmon.Controller.Handles.{pid_marker}
use netmon.Controller.Nft.{NftApi, without_all, marked}
use netmon.Controller.Chain.{marked-without_all}
use netmon.Controller.Action.{
  ok, Control, Action, ◌>>=◌, ◌>>◌, guard, modify, run_nft_script, find_rule_handles,
  setup_nftables,
}
use netmon.Controller.Process.{
  is_empty, or_empty, from_result, unblock_process, block_script, block_process,
}
use netmon.Controller.Process.Kept.{remove_rules-rules, setup_nftables-Keeps}
use netmon.Controller.Process.Unblock.{
  bind-eq-ok, find_pid-eq-ok, unblock_process-eq-ok, removed_handles, or_marked,
}

not-true : (b : Bool) → not b ≡ true → b ≡ false
not-true true h = cc
not-true false h = refl

guard-eq-ok :
    {Nft : Type 0} (b : Bool) (e : Text) (c c' : Control Nft) (u : Unit {0})
    → guard b e c ≡ (ok u, c')
    → (b ≡ true) × (c ≡ c')
guard-eq-ok true e c c' u h = (refl, ap (λ r. r.1) h)
guard-eq-ok false e c c' u h = cc (ap (λ r. r.0) h)

module _ (api : NftApi) where
  open api use {Nft, execute, chain}

  -- What follows the removal of the old rules, in a block as in a rate limit.
  abbrev pub install : ℕ → Text → Text → Text → Action Nft (Unit {0})
  install key marker message rules = do
    run_nft_script api rules
    handles ← find_rule_handles api marker
    guard (not (is_empty handles)) message
    modify (insert key handles)

  abbrev pub FindsMarked : Text → Type 0
  FindsMarked marker =
      (d d' : Control Nft) (hs : List ℕ)
      → find_rule_handles api marker d ≡ (ok hs, d')
      → (hs ≡ marked marker (chain d.nft)) × (chain d'.nft ≡ chain d.nft) × (d'.rules ≡ d.rules)

  -- The handles found are those of the marked rules of the chain in the end.
  pub install-eq-ok :
      (key : ℕ) (marker message rules : Text) (c c' : Control Nft)
      → FindsMarked marker
      → install key marker message rules c ≡ (ok tt, c')
      → (c'.rules ≡ insert key (marked marker (chain c'.nft)) c.rules)
        × (is_empty (marked marker (chain c'.nft)) ≡ false)
  unfolding run_nft_script
  install-eq-ok key marker message rules c c' finds h =
      let c1 : Control Nft = (run_nft_script api rules c).1 in
      let (u, e, h1) = bind-eq-ok (run_nft_script api rules c) (λ v. searched) c' tt h in
      let (hs, found, h2) = bind-eq-ok (find_rule_handles api marker c1) tracked c' tt h1 in
      let c2 : Control Nft = (find_rule_handles api marker c1).1 in
      let (a, b, d) = finds c1 c2 hs (ap (λ r. (r, c2)) found) in
      let (v, g, h3) =
        bind-eq-ok (guard (not (is_empty hs)) message c2) (λ w. modify (insert key hs)) c' tt h2 in
      let c3 : Control Nft = (guard (not (is_empty hs)) message c2).1 in
      let (some_found, same) =
        guard-eq-ok (not (is_empty hs)) message c2 c3 v (ap (λ r. (r, c3)) g) in
      let same_chain : chain c'.nft ≡ chain c1.nft =
        ap (λ r. chain r.1.nft) (sym h3) ∙ ap (λ r. chain r.nft) (sym same) ∙ b in
      let handles : hs ≡ marked marker (chain c'.nft) = a ∙ ap (marked marker) (sym same_chain) in
      (
        ap (λ r. r.1.rules) (sym h3)
            ∙ ap (λ r. insert key hs r.rules) (sym same)
            ∙ ap (insert key hs) d
            ∙ ap (λ xs. insert key xs c.rules) handles,
        subst (λ xs. is_empty xs ≡ false) handles (not-true (is_empty hs) some_found),
      )
    where
      tracked : List ℕ → Action Nft (Unit {0})
      tracked handles = do guard (not (is_empty handles)) message; modify (insert key handles)

      searched : Action Nft (Unit {0})
      searched = find_rule_handles api marker >>= tracked

  pub block_process-installs :
      (read_to_string : Text → Option Text) (pid : ℕ) (name : Text) (c c' : Control Nft)
      → block_process api read_to_string pid name c ≡ (ok tt, c')
      → (c'.rules ≡ insert pid (marked (pid_marker pid) (chain c'.nft)) (remove pid c.rules))
        × (is_empty (marked (pid_marker pid) (chain c'.nft)) ≡ false)
  unfolding block_process unblock_process
  block_process-installs read_to_string pid name c c' h =
      let c1 : Control Nft = (setup_nftables api c).1 in
      let c2 : Control Nft = (unblock_process api pid c1).1 in
      let (rules, e, rest) =
        bind-eq-ok (from_result api (block_script read_to_string pid name) c2) install_all c' tt
          h in
      let (inserted, nonempty) =
        install-eq-ok pid (pid_marker pid) (text "Inserted rules but could not find nft handles")
          rules c2 c' (λ d d' hs. find_pid-eq-ok api pid d d' hs) rest in
      (
        inserted
            ∙ ap (insert pid (marked (pid_marker pid) (chain c'.nft))) (
                remove_rules-rules api pid (pid_marker pid) c1
                ∙ ap (remove pid) (setup_nftables-Keeps api c)),
        nonempty,
      )
    where
      install_all : Text → Action Nft (Unit {0})
      install_all =
          install pid (pid_marker pid) (text "Inserted rules but could not find nft handles")

  -- Blocking a process that ends well tracks the handles of the rules in the chain that have its
  -- marker, of which there is at least one.
  pub block_process-eq-ok :
      (read_to_string : Text → Option Text) (pid : ℕ) (name : Text) (c c' : Control Nft)
      → block_process api read_to_string pid name c ≡ (ok tt, c')
      → (get pid c'.rules ≡ some (marked (pid_marker pid) (chain c'.nft)))
        × (is_empty (marked (pid_marker pid) (chain c'.nft)) ≡ false)
  block_process-eq-ok read_to_string pid name c c' h =
      let (inserted, nonempty) = block_process-installs read_to_string pid name c c' h in
      (ap (get pid) inserted ∙ get-insert_self pid _ (remove pid c.rules), nonempty)

  -- If blocking a process and then unblocking it both end well, no rule of the chain has the marker
  -- of the process, so its rate limits are gone as well.
  pub unblock_process-block_process :
      (read_to_string : Text → Option Text) (pid : ℕ) (name : Text) (c c1 c2 : Control Nft)
      → block_process api read_to_string pid name c ≡ (ok tt, c1)
      → unblock_process api pid c1 ≡ (ok tt, c2)
      → marked (pid_marker pid) (chain c2.nft) ≡ []
  unblock_process-block_process read_to_string pid name c c1 c2 h k =
      let (tracked, nonempty) = block_process-eq-ok read_to_string pid name c c1 h in
      let (removed, forgotten) = unblock_process-eq-ok api pid c1 c2 k in
      ap (marked (pid_marker pid)) removed
      ∙ ap (λ hs. marked (pid_marker pid) (without_all hs (chain c1.nft))) (all_of tracked)
      ∙ marked-without_all (pid_marker pid) (chain c1.nft)
    where
      or_marked_self :
          (hs : List ℕ)
          → hs ≡ marked (pid_marker pid) (chain c1.nft)
          → or_marked hs (pid_marker pid) (chain c1.nft) ≡ marked (pid_marker pid) (chain c1.nft)
      or_marked_self [] e = refl
      or_marked_self (x ∷ xs) e = e

      all_of :
          get pid c1.rules ≡ some (marked (pid_marker pid) (chain c1.nft))
          → removed_handles api pid (pid_marker pid) c1 ≡ marked (pid_marker pid) (chain c1.nft)
      all_of t = or_marked_self (or_empty (get pid c1.rules)) (ap or_empty t)
