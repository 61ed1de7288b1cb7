-- ===== src/Controller/Process/RateLimit.antt =====
-- Rate limits of a process after it was unblocked.
use netmon.Base.{
  ℕ, ◌≡◌, ◌≢◌, refl, sym, ap, ◌∙◌, subst, Bool, true, false, List, [], ◌∷◌, Option, none, ℕ_eq,
}
use netmon.Base.Text.{Text, text}
use netmon.HashMap.{get, insert, remove}
use netmon.HashMap.Laws.{get-insert_self, get-remove_ne}
use netmon.Controller.Handles.{pid_marker}
use netmon.Controller.Nft.{
  NftApi, Rule, without_all, marked, has_handle, Reply, exited, not_found, not_spawned, not_written,
  not_awaited, succeeded, delete_rule, add_table, add_chain,
}
use netmon.Controller.Chain.{elem, elem_head, elem-marked, has_handle-without_all}
use netmon.Controller.Action.{
  Result, ok, err, Control, Action, ended, ◌>>=◌, command_result, run_nft_command, setup_nftables,
  delete_rules,
}
use netmon.Controller.Process.{
  is_empty, or_empty, tracked_or_listed, from_result, remove_rules, unblock_process, rate_limit_key,
  rate_limit_marker, rate_limit_script, remove_rate_limit_rules_for_pid, rate_limit_process,
}
use netmon.Controller.Process.Kept.{remove_rules-rules, setup_nftables-Keeps}
use netmon.Controller.Process.Unblock.{
  bind-eq-ok, find-eq-ok, unblock_process-eq-ok, removed_handles, or_marked,
}
use netmon.Controller.Process.Block.{install, install-eq-ok}

abbrev pub is_err : {A : Type 0} → Result A → Bool
is_err (ok a) = false
is_err (err e) = true

command_result-is_err :
    (reply : Reply) → succeeded reply ≡ false → is_err (command_result false reply) ≡ true
unfolding command_result
command_result-is_err (not_found e) h = refl
command_result-is_err (not_spawned e) h = refl
command_result-is_err (not_written e) h = refl
command_result-is_err (not_awaited e) h = refl
command_result-is_err (exited true out error) h = cc h
command_result-is_err (exited false out error) h = refl

module _ {Nft : Type 0} where
  bind-is_err :
      {A B : Type 0} (r : Result A × Control Nft) (f : A → Action Nft B) (c : Control Nft)
      → is_err r.0 ≡ true
      → is_err ((ended r >>= f) c).0 ≡ true
  bind-is_err (ok a, d) f c h = cc h
  bind-is_err (err e, d) f c h = refl

  bind-chain :
      {A B : Type 0} (chain : Nft → List Rule) (r : Result A × Control Nft) (f : A → Action Nft B)
      (c : Control Nft)
      → chain r.1.nft ≡ chain c.nft
      → ((a : A) (d : Control Nft) → chain (f a d).1.nft ≡ chain d.nft)
      → chain ((ended r >>= f) c).1.nft ≡ chain c.nft
  bind-chain chain (ok a, d) f c k kf = kf a d ∙ k
  bind-chain chain (err e, d) f c k kf = k

module _ (api : NftApi) where
  open api use {Nft, execute, chain, absent, table_keeps, chain_keeps}

  setup_nftables-chain : (c : Control Nft) → chain (setup_nftables api c).1.nft ≡ chain c.nft
  unfolding setup_nftables run_nft_command
  setup_nftables-chain c =
      bind-chain chain (run_nft_command api add_table true c)
        (λ u. run_nft_command api add_chain true) c (table_keeps c.nft) (λ u d. chain_keeps d.nft)

  delete_rules-is_err :
      (x : ℕ) (xs : List ℕ) (c : Control Nft)
      → has_handle x (chain c.nft) ≡ false
      → is_err (delete_rules api (x ∷ xs) c).0 ≡ true
  unfolding delete_rules run_nft_command
  delete_rules-is_err x xs c h =
      bind-is_err (run_nft_command api (delete_rule x) false c) (λ u. delete_rules api xs) c
        (command_result-is_err _ (absent c.nft x h))

  -- Where the first handle tracked for a key is not in the chain, the removal fails.
  remove_rules-is_err :
      (key : ℕ) (marker : Text) (x : ℕ) (xs : List ℕ) (c : Control Nft)
      → or_empty (get key c.rules) ≡ x ∷ xs
      → has_handle x (chain c.nft) ≡ false
      → is_err (remove_rules api key marker c).0 ≡ true
  unfolding remove_rules
  remove_rules-is_err key marker x xs c t h =
      subst (λ hs. is_err ((tracked_or_listed api hs marker >>= delete_rules api) d).0 ≡ true)
        (sym t) (delete_rules-is_err x xs d h)
    where
      d : Control Nft
      d = record c { rules = remove key c.rules }

  rate_limit_process-is_err :
      (read_to_string : Text → Option Text) (pid rate : ℕ) (x : ℕ) (xs : List ℕ) (c : Control Nft)
      → or_empty (get (rate_limit_key pid) c.rules) ≡ x ∷ xs
      → has_handle x (chain c.nft) ≡ false
      → is_err (rate_limit_process api read_to_string pid rate c).0 ≡ true
  unfolding rate_limit_process remove_rate_limit_rules_for_pid
  rate_limit_process-is_err read_to_string pid rate x xs c t h =
      bind-is_err (remove_rate_limit_rules_for_pid api pid d) limited d (
        remove_rules-is_err (rate_limit_key pid) (rate_limit_marker pid) x xs d
          (ap (λ m. or_empty (get (rate_limit_key pid) m)) (setup_nftables-Keeps api c) ∙ t)
          (ap (has_handle x) (setup_nftables-chain c) ∙ h))
    where
      d : Control Nft
      d = (setup_nftables api c).1

      limited : Unit {0} → Action Nft (Unit {0})
      limited u =
          from_result api (rate_limit_script read_to_string pid rate)
          >>= install api (rate_limit_key pid) (rate_limit_marker pid)
              (text "Inserted rate-limit rules but could not find nft handles")

  pub limited-eq-ok :
      (read_to_string : Text → Option Text) (pid rate : ℕ) (c c' : Control Nft)
      → rate_limit_process api read_to_string pid rate c ≡ (ok tt, c')
      → (c'.rules
          ≡ insert
              (rate_limit_key pid)
              (marked (rate_limit_marker pid) (chain c'.nft))
              (remove (rate_limit_key pid) c.rules))
        × (is_empty (marked (rate_limit_marker pid) (chain c'.nft)) ≡ false)
  unfolding rate_limit_process rate_limit_marker remove_rate_limit_rules_for_pid
  limited-eq-ok read_to_string pid rate c c' h =
      let d : Control Nft = (setup_nftables api c).1 in
      let d' : Control Nft = (remove_rate_limit_rules_for_pid api pid d).1 in
      let (u, e, rest) = bind-eq-ok (remove_rate_limit_rules_for_pid api pid d) limited c' tt h in
      let (rules, e', rest') =
        bind-eq-ok (from_result api (rate_limit_script read_to_string pid rate) d') installed c' tt
          rest in
      let (inserted, nonempty) =
        install-eq-ok api (rate_limit_key pid) (rate_limit_marker pid) message rules d' c'
          (λ d d' hs. find-eq-ok api pid (text "rate-limit") d d' hs) rest' in
      (
        inserted
            ∙ ap (insert (rate_limit_key pid) (marked (rate_limit_marker pid) (chain c'.nft))) (
                remove_rules-rules api (rate_limit_key pid) (rate_limit_marker pid) d
                ∙ ap (remove (rate_limit_key pid)) (setup_nftables-Keeps api c)),
        nonempty,
      )
    where
      message : Text
      message = text "Inserted rate-limit rules but could not find nft handles"

      installed : Text → Action Nft (Unit {0})
      installed = install api (rate_limit_key pid) (rate_limit_marker pid) message

      limited : Unit {0} → Action Nft (Unit {0})
      limited u = from_result api (rate_limit_script read_to_string pid rate) >>= installed

  -- Where the key of the rate limits is not the process's own key: if a process that has no tracked
  -- blocks gets a rate limit and is then unblocked, both ending well, limiting its rate again fails,
  -- since the handles of the rate limit are still tracked, though the unblocking deleted its rules.
  pub rate_limit_process-unblock_process :
      (read_to_string : Text → Option Text) (pid rate next_rate : ℕ) (c c1 c2 : Control Nft)
      → rate_limit_key pid ≢ pid
      → rate_limit_process api read_to_string pid rate c ≡ (ok tt, c1)
      → get pid c1.rules ≡ none
      → unblock_process api pid c1 ≡ (ok tt, c2)
      → is_err (rate_limit_process api read_to_string pid next_rate c2).0 ≡ true
  unfolding rate_limit_marker
  rate_limit_process-unblock_process read_to_string pid rate next_rate c c1 c2 key h untracked k =
      let (tracked, nonempty) = limited-eq-ok read_to_string pid rate c c1 h in
      let (removed, forgotten) = unblock_process-eq-ok api pid c1 c2 k in
      let still : or_empty (get (rate_limit_key pid) c2.rules) ≡ limits =
        ap (λ m. or_empty (get (rate_limit_key pid) m)) forgotten
        ∙ ap or_empty (get-remove_ne pid (rate_limit_key pid) c1.rules (λ e. key (sym e)))
        ∙ ap (λ m. or_empty (get (rate_limit_key pid) m)) tracked
        ∙ ap or_empty
            (get-insert_self (rate_limit_key pid) _ (remove (rate_limit_key pid) c.rules)) in
      go limits refl nonempty still (removed ∙ ap (λ hs. without_all hs (chain c1.nft)) listed_all)
    where
      limits : List ℕ
      limits = marked (rate_limit_marker pid) (chain c1.nft)

      listed_all :
          removed_handles api pid (pid_marker pid) c1 ≡ marked (pid_marker pid) (chain c1.nft)
      listed_all = ap (λ o. or_marked (or_empty o) (pid_marker pid) (chain c1.nft)) untracked

      go :
          (hs : List ℕ)
          → limits ≡ hs
          → is_empty hs ≡ false
          → or_empty (get (rate_limit_key pid) c2.rules) ≡ hs
          → chain c2.nft ≡ without_all (marked (pid_marker pid) (chain c1.nft)) (chain c1.nft)
          → is_err (rate_limit_process api read_to_string pid next_rate c2).0 ≡ true
      go [] e n t r = cc n
      go (x ∷ xs) e n t r = rate_limit_process-is_err read_to_string pid next_rate x xs c2 t (
          ap (has_handle x) r
          ∙ has_handle-without_all x _ (chain c1.nft) (
              elem-marked x (pid_marker pid) (text "rate-limit") (chain c1.nft)
                (ap (elem x) e ∙ elem_head x xs)))
