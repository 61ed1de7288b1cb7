-- ===== src/Gui/Control/Outcomes.antt =====
-- The calls of the controller from the user interface keep every tracked block shown.
use netmon.Base.{
  ℕ, ◌≡◌, refl, sym, ap, subst, not, ◌||◌, List, [], ◌∷◌, Option, none, some, if_cases, inl, inr,
  ◌==◌, ℕ_eq,
}
use netmon.Base.Text.{Text, text_eq}
use netmon.HashMap.{HashMap, remove}
use netmon.Aggregator.Types.{ProcessRow}
use netmon.Aggregator.Publish.{is_blocked}
use netmon.Controller.Handles.{pid_marker}
use netmon.Controller.Nft.{NftApi}
use netmon.Controller.Action
use netmon.Controller.Action.{Result, ok, err}
use netmon.Controller.Process.{block_process, unblock_process, rate_limit_process, rate_limit_key}
use netmon.Controller.Process.Kept.{remove_rules-rules}
use netmon.Controller.Process.Block.{block_process-installs}
use netmon.Controller.Process.Failed.{block_process-forgets, rate_limit_process-forgets}
use netmon.Controller.Process.RateLimit.{limited-eq-ok}
use netmon.Gui.Control.{
  Session, insert_pid, remove_pid, after_block, after_unblock, positive_rate, limit_bandwidth,
  Blocking, block_outcome, block_pid, block_rows, block_user, user_blocking, limit_at,
  confirm_pending, confirm_block, unblock_pid,
}
use netmon.Gui.Control.Shown.{
  AreShown, AreShown-insert, AreShown-remove, AreShown-insert_pid, AreShown-remove_pid,
  insert_pid_self,
}

abbrev pub IsTracked : {Nft : Type 0} → Session Nft → Type 0
IsTracked s = AreShown s.app.blocked_pids s.control.rules

-- The processes shown as blocked after a block of one ended in some way.
abbrev pub blocked_after : ℕ → Result (Unit {0}) → List ℕ → List ℕ
blocked_after pid (ok u) ps = insert_pid pid ps
blocked_after pid (err e) ps = ps

module _ (api : NftApi) (read_to_string : Text → Option Text) where
  open api use {Nft, chain}

  block_process-AreShown :
      (pid : ℕ) (name : Text) (ps : List ℕ) (c : Action.Control Nft)
      → AreShown ps c.rules
      → AreShown
          (blocked_after pid (block_process api read_to_string pid name c).0 ps)
          (block_process api read_to_string pid name c).1.rules
  block_process-AreShown pid name ps c h =
      by_result (block_process api read_to_string pid name c).0 refl
    where
      c' : Action.Control Nft
      c' = (block_process api read_to_string pid name c).1

      by_result :
          (r : Result (Unit {0}))
          → (block_process api read_to_string pid name c).0 ≡ r
          → AreShown (blocked_after pid r ps) c'.rules
      by_result (ok u) e =
          let (installed, nonempty) =
            block_process-installs api read_to_string pid name c c' (ap (λ r. (r, c')) e) in
          subst (AreShown (insert_pid pid ps)) (sym installed) (
            AreShown-insert pid _ (insert_pid pid ps) (remove pid c.rules)
              (inl (insert_pid_self pid ps))
              (AreShown-insert_pid pid ps (remove pid c.rules) (AreShown-remove pid ps c.rules h)))
      by_result (err x) e =
          subst (AreShown ps)
            (sym (block_process-forgets api read_to_string pid name x c c' (ap (λ r. (r, c')) e)))
            (AreShown-remove pid ps c.rules h)

  rate_limit_process-AreShown :
      (pid rate : ℕ) (ps : List ℕ) (c : Action.Control Nft)
      → AreShown ps c.rules
      → AreShown ps (rate_limit_process api read_to_string pid rate c).1.rules
  rate_limit_process-AreShown pid rate ps c h =
      by_result (rate_limit_process api read_to_string pid rate c).0 refl
    where
      c' : Action.Control Nft
      c' = (rate_limit_process api read_to_string pid rate c).1

      key : ℕ
      key = rate_limit_key pid

      by_result :
          (r : Result (Unit {0}))
          → (rate_limit_process api read_to_string pid rate c).0 ≡ r
          → AreShown ps c'.rules
      by_result (ok u) e =
          let (installed, nonempty) =
            limited-eq-ok api read_to_string pid rate c c' (ap (λ r. (r, c')) e) in
          subst (AreShown ps) (sym installed) (
            AreShown-insert key _ ps (remove key c.rules) (inr (pid, refl))
              (AreShown-remove key ps c.rules h))
      by_result (err x) e =
          subst (AreShown ps)
            (sym
              (rate_limit_process-forgets api read_to_string pid rate x c c' (ap (λ r. (r, c')) e)))
            (AreShown-remove key ps c.rules h)

  pub block_pid-IsTracked :
      (pid : ℕ) (name : Text) (s : Session Nft)
      → IsTracked s
      → IsTracked (block_pid api read_to_string pid name s)
  unfolding block_pid after_block
  block_pid-IsTracked pid name s h =
      go (block_process api read_to_string pid name s.control).0
        (block_process-AreShown pid name s.app.blocked_pids s.control h)
    where
      c' : Action.Control Nft
      c' = (block_process api read_to_string pid name s.control).1

      go :
          (r : Result (Unit {0}))
          → AreShown (blocked_after pid r s.app.blocked_pids) c'.rules
          → AreShown (after_block pid name r s.app).blocked_pids c'.rules
      go (ok u) k = k
      go (err e) k = k

  pub unblock_pid-IsTracked :
      (pid : ℕ) (s : Session Nft) → IsTracked s → IsTracked (unblock_pid api pid s)
  unfolding unblock_pid after_unblock unblock_process
  unblock_pid-IsTracked pid s h = go (unblock_process api pid s.control).0
    where
      rules : HashMap ℕ (List ℕ)
      rules = (unblock_process api pid s.control).1.rules

      forgotten : rules ≡ remove pid s.control.rules
      forgotten = remove_rules-rules api pid (pid_marker pid) s.control

      go : (r : Result (Unit {0})) → AreShown (after_unblock pid r s.app).blocked_pids rules
      go (ok u) =
          subst (AreShown (remove_pid pid s.app.blocked_pids)) (sym forgotten)
            (AreShown-remove_pid pid s.app.blocked_pids s.control.rules h)
      go (err e) =
          subst (AreShown s.app.blocked_pids) (sym forgotten)
            (AreShown-remove pid s.app.blocked_pids s.control.rules h)

  pub limit_bandwidth-IsTracked :
      (pid : ℕ) (name : Text) (s : Session Nft)
      → IsTracked s
      → IsTracked (limit_bandwidth api read_to_string pid name s)
  unfolding limit_bandwidth limit_at
  limit_bandwidth-IsTracked pid name s h = go (positive_rate s.app.rate_limit_kbps_input)
    where
      go : (o : Option ℕ) → IsTracked (limit_at api read_to_string pid name s o)
      go none = h
      go (some rate) = rate_limit_process-AreShown pid rate s.app.blocked_pids s.control h

  pub confirm_block-IsTracked :
      (s : Session Nft) → IsTracked s → IsTracked (confirm_block api read_to_string s)
  unfolding confirm_block confirm_pending
  confirm_block-IsTracked s h = go s.app.pending_block
    where
      go : (o : Option (ℕ × Text)) → IsTracked (confirm_pending api read_to_string s o)
      go none = h
      go (some (pid, name)) = block_pid-IsTracked pid name s h

  block_outcome-IsTracked :
      (row : ProcessRow) (r : Result (Unit {0})) (b : Blocking Nft)
      → AreShown (blocked_after row.info.pid r b.session.app.blocked_pids) b.session.control.rules
      → IsTracked (block_outcome row r b).session
  unfolding block_outcome
  block_outcome-IsTracked row (ok u) b h = h
  block_outcome-IsTracked row (err e) b h = h

  block_rows-IsTracked :
      (username : Text) (rows : List ProcessRow) (b : Blocking Nft)
      → IsTracked b.session
      → IsTracked (block_rows api read_to_string username rows b).session
  unfolding block_rows
  block_rows-IsTracked username [] b h = h
  block_rows-IsTracked username (row ∷ rest) b h =
      if_cases (λ (d : Blocking Nft). IsTracked d.session)
        (not (row.info.username == username) || is_blocked b.seen row.info.pid) _ _
        (λ y. block_rows-IsTracked username rest b h)
        (λ n. block_rows-IsTracked username rest _ (
          block_outcome-IsTracked row
            (block_process api read_to_string row.info.pid row.info.name b.session.control).0 _
            (block_process-AreShown row.info.pid row.info.name b.session.app.blocked_pids
              b.session.control h)))

  pub block_user-IsTracked :
      (username : Text) (s : Session Nft)
      → IsTracked s
      → IsTracked (block_user api read_to_string username s)
  unfolding block_user user_blocking
  block_user-IsTracked username s h =
      block_rows-IsTracked username s.app.rows_snapshot
        (record { session = s; seen = []; labels = []; errors = [] }) h
