-- ===== src/Controller/Process/Failed.antt =====
-- What a block that fails, and the removal of all blocks, leave in the map of rules.
use netmon.Base.{
  ℕ, ◌≡◌, refl, sym, ap, ◌∙◌, Bool, true, false, not, List, [], Option, none, ℕ_eq, eqb_refl,
}
use netmon.Base.Text.{Text, text}
use netmon.HashMap.{get, insert, remove, DistinctKeys}
use netmon.HashMap.Laws.{get-remove}
use netmon.Controller.Handles.{pid_marker}
use netmon.Controller.Nft.{NftApi, flush_chain}
use netmon.Controller.Action.{
  Result, ok, err, Control, Action, ended, ◌>>=◌, ◌>>◌, guard, modify, run_nft_command,
  run_nft_script, find_rule_handles, setup_nftables,
}
use netmon.Controller.Process.{
  is_empty, from_result, unblock_process, block_script, block_process, unblock_all, rate_limit_key,
  rate_limit_marker, rate_limit_script, remove_rate_limit_rules_for_pid, rate_limit_process,
}
use netmon.Controller.Process.Kept.{find-Keeps, remove_rules-rules, setup_nftables-Keeps}
use netmon.Controller.Process.Unblock.{bind-eq-ok, command_result-succeeded}
use netmon.Controller.Process.Block.{install}

module _ {Nft : Type 0} where
  -- A call with a failed outcome kept the map if its first part keeps it and the rest, failing, does.
  bind-eq-err :
      {A B : Type 0} (f : A → Action Nft B) (r : Result A × Control Nft) (c c' : Control Nft)
      (e : Text)
      → r.1.rules ≡ c.rules
      → ((a : A) → f a r.1 ≡ (err e, c') → c'.rules ≡ r.1.rules)
      → (ended r >>= f) c ≡ (err e, c')
      → c'.rules ≡ c.rules
  bind-eq-err f (ok a, d) c c' e k kf h = kf a h ∙ k
  bind-eq-err f (err x, d) c c' e k kf h = ap (λ r. r.1.rules) (sym h) ∙ k

module _ (api : NftApi) where
  open api use {Nft, execute, chain, flushed}

  tracked-eq-err :
      (key : ℕ) (b : Bool) (message : Text) (hs : List ℕ) (c c' : Control Nft) (e : Text)
      → (guard b message >> modify (insert key hs)) c ≡ (err e, c')
      → c'.rules ≡ c.rules
  tracked-eq-err key true message hs c c' e h = cc (ap (λ r. r.0) h)
  tracked-eq-err key false message hs c c' e h = ap (λ r. r.1.rules) (sym h)

  install-eq-err :
      (key : ℕ) (marker message rules : Text) (c c' : Control Nft) (e : Text)
      → install api key marker message rules c ≡ (err e, c')
      → c'.rules ≡ c.rules
  unfolding run_nft_script
  install-eq-err key marker message rules c c' e h =
      bind-eq-err (λ u. searched) (run_nft_script api rules c) c c' e refl
        (λ u.
          bind-eq-err tracked (find_rule_handles api marker d) d c' e (find-Keeps api marker d)
            (λ hs.
              tracked-eq-err key (not (is_empty hs)) message hs (find_rule_handles api marker d).1
                c' e))
        h
    where
      d : Control Nft
      d = (run_nft_script api rules c).1

      tracked : List ℕ → Action Nft (Unit {0})
      tracked handles = do guard (not (is_empty handles)) message; modify (insert key handles)

      searched : Action Nft (Unit {0})
      searched = find_rule_handles api marker >>= tracked

  pub block_process-forgets :
      (read_to_string : Text → Option Text) (pid : ℕ) (name e : Text) (c c' : Control Nft)
      → block_process api read_to_string pid name c ≡ (err e, c')
      → c'.rules ≡ remove pid c.rules
  unfolding block_process unblock_process
  block_process-forgets read_to_string pid name e c c' h =
      bind-eq-err installed (from_result api (block_script read_to_string pid name) c2) c2 c' e refl
        (λ rules. install-eq-err pid (pid_marker pid) _ rules c2 c' e) h
      ∙ remove_rules-rules api pid (pid_marker pid) c1
      ∙ ap (remove pid) (setup_nftables-Keeps api c)
    where
      c1 : Control Nft
      c1 = (setup_nftables api c).1

      c2 : Control Nft
      c2 = (unblock_process api pid c1).1

      installed : Text → Action Nft (Unit {0})
      installed =
          install api pid (pid_marker pid) (text "Inserted rules but could not find nft handles")

  -- Where each process stands once in the map of rules, a block that fails leaves no handles tracked
  -- for its process, whichever of its steps failed.
  pub block_process-eq-err :
      (read_to_string : Text → Option Text) (pid : ℕ) (name e : Text) (c c' : Control Nft)
      → DistinctKeys c.rules
      → block_process api read_to_string pid name c ≡ (err e, c')
      → get pid c'.rules ≡ none
  block_process-eq-err read_to_string pid name e c c' distinct h =
      ap (get pid) (block_process-forgets read_to_string pid name e c c' h)
      ∙ get-remove pid pid c.rules distinct
      ∙ rw (eqb_refl ℕ_eq pid) refl

  pub rate_limit_process-forgets :
      (read_to_string : Text → Option Text) (pid rate : ℕ) (e : Text) (c c' : Control Nft)
      → rate_limit_process api read_to_string pid rate c ≡ (err e, c')
      → c'.rules ≡ remove (rate_limit_key pid) c.rules
  unfolding rate_limit_process remove_rate_limit_rules_for_pid
  rate_limit_process-forgets read_to_string pid rate e c c' h =
      bind-eq-err limited (remove_rate_limit_rules_for_pid api pid d) d' c' e refl
        (λ u.
          bind-eq-err installed (from_result api (rate_limit_script read_to_string pid rate) d') d'
            c' e refl
            (λ rules. install-eq-err (rate_limit_key pid) (rate_limit_marker pid) _ rules d' c' e))
        h
      ∙ remove_rules-rules api (rate_limit_key pid) (rate_limit_marker pid) d
      ∙ ap (remove (rate_limit_key pid)) (setup_nftables-Keeps api c)
    where
      d : Control Nft
      d = (setup_nftables api c).1

      d' : Control Nft
      d' = (remove_rate_limit_rules_for_pid api pid d).1

      installed : Text → Action Nft (Unit {0})
      installed =
          install api (rate_limit_key pid) (rate_limit_marker pid)
            (text "Inserted rate-limit rules but could not find nft handles")

      limited : Unit {0} → Action Nft (Unit {0})
      limited u = from_result api (rate_limit_script read_to_string pid rate) >>= installed

  -- Removing all blocks, when it ends well, empties the chain and the map of rules.
  pub unblock_all-eq-ok :
      (c c' : Control Nft) → unblock_all api c ≡ (ok tt, c') → (chain c'.nft ≡ []) × (c'.rules ≡ [])
  unfolding unblock_all run_nft_command
  unblock_all-eq-ok c c' h =
      let (u, e, rest) =
        bind-eq-ok (run_nft_command api flush_chain false c) (λ v. modify (λ rules. [])) c' tt h in
      (
        ap (λ r. chain r.1.nft) (sym rest) ∙ flushed c.nft (command_result-succeeded _ e),
        ap (λ r. r.1.rules) (sym rest),
      )
