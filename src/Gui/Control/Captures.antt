-- ===== src/Gui/Control/Captures.antt =====
-- The calls of the controller from the user interface do not touch the capture.
use netmon.Base.{ℕ, not, ◌||◌, List, [], ◌∷◌, Option, none, some, if_cases, ◌==◌}
use netmon.Base.Text.{Text, text_eq}
use netmon.Aggregator.Types.{ProcessRow}
use netmon.Aggregator.Publish.{is_blocked}
use netmon.Controller.Nft.{NftApi}
use netmon.Controller.Action.{Result, ok, err}
use netmon.Controller.Process.{block_process, unblock_process}
use netmon.Gui.Types.{NetmonApp}
use netmon.Gui.Session.Held.{IsCoherent}
use netmon.Gui.Control.{
  Session, after_block, after_unblock, positive_rate, limit_at, limit_bandwidth, Blocking,
  block_outcome, block_pid, block_rows, first_blocking, user_blocking, block_user, confirm_pending,
  confirm_block, unblock_pid,
}

after_block-IsCoherent :
    (pid : ℕ) (name : Text) (r : Result (Unit {0})) (a : NetmonApp)
    → IsCoherent a
    → IsCoherent (after_block pid name r a)
unfolding after_block
after_block-IsCoherent pid name (ok u) a c = c
after_block-IsCoherent pid name (err e) a c = c

after_unblock-IsCoherent :
    (pid : ℕ) (r : Result (Unit {0})) (a : NetmonApp)
    → IsCoherent a
    → IsCoherent (after_unblock pid r a)
unfolding after_unblock
after_unblock-IsCoherent pid (ok u) a c = c
after_unblock-IsCoherent pid (err e) a c = c

block_outcome-IsCoherent :
    {Nft : Type 0} (row : ProcessRow) (r : Result (Unit {0})) (b : Blocking Nft)
    → IsCoherent b.session.app
    → IsCoherent (block_outcome row r b).session.app
unfolding block_outcome
block_outcome-IsCoherent row (ok u) b c = c
block_outcome-IsCoherent row (err e) b c = c

module _ (api : NftApi) (read_to_string : Text → Option Text) where
  open api use {Nft}

  pub block_pid-IsCoherent :
      (pid : ℕ) (name : Text) (s : Session Nft)
      → IsCoherent s.app
      → IsCoherent (block_pid api read_to_string pid name s).app
  unfolding block_pid
  block_pid-IsCoherent pid name s c =
      after_block-IsCoherent pid name (block_process api read_to_string pid name s.control).0 s.app
        c

  pub unblock_pid-IsCoherent :
      (pid : ℕ) (s : Session Nft) → IsCoherent s.app → IsCoherent (unblock_pid api pid s).app
  unfolding unblock_pid
  unblock_pid-IsCoherent pid s c =
      after_unblock-IsCoherent pid (unblock_process api pid s.control).0 s.app c

  pub limit_bandwidth-IsCoherent :
      (pid : ℕ) (name : Text) (s : Session Nft)
      → IsCoherent s.app
      → IsCoherent (limit_bandwidth api read_to_string pid name s).app
  unfolding limit_bandwidth limit_at
  limit_bandwidth-IsCoherent pid name s c = go (positive_rate s.app.rate_limit_kbps_input)
    where
      go : (o : Option ℕ) → IsCoherent (limit_at api read_to_string pid name s o).app
      go none = c
      go (some rate) = c

  pub confirm_block-IsCoherent :
      (s : Session Nft) → IsCoherent s.app → IsCoherent (confirm_block api read_to_string s).app
  unfolding confirm_block confirm_pending
  confirm_block-IsCoherent s c = go s.app.pending_block
    where
      go : (o : Option (ℕ × Text)) → IsCoherent (confirm_pending api read_to_string s o).app
      go none = c
      go (some (pid, name)) = block_pid-IsCoherent pid name s c

  block_rows-IsCoherent :
      (username : Text) (rows : List ProcessRow) (b : Blocking Nft)
      → IsCoherent b.session.app
      → IsCoherent (block_rows api read_to_string username rows b).session.app
  unfolding block_rows
  block_rows-IsCoherent username [] b c = c
  block_rows-IsCoherent username (row ∷ rest) b c =
      if_cases (λ (d : Blocking Nft). IsCoherent d.session.app)
        (not (row.info.username == username) || is_blocked b.seen row.info.pid) _ _
        (λ y. block_rows-IsCoherent username rest b c)
        (λ n. block_rows-IsCoherent username rest _ (
          block_outcome-IsCoherent row
            (block_process api read_to_string row.info.pid row.info.name b.session.control).0 _ c))

  pub block_user-IsCoherent :
      (username : Text) (s : Session Nft)
      → IsCoherent s.app
      → IsCoherent (block_user api read_to_string username s).app
  unfolding block_user user_blocking
  block_user-IsCoherent username s c =
      block_rows-IsCoherent username s.app.rows_snapshot (first_blocking s) c
