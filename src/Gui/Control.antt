-- ===== src/Gui/Control.antt =====
-- Blocks and rate limits from the user interface of crates/gui/src/main.rs, with the controller.
pub mod Shown
pub mod Outcomes
pub mod Users
pub mod Captures
use netmon.Base.{
  ℕ, zero, suc, Bool, true, false, not, ◌&&◌, ◌||◌, List, [], ◌∷◌, ◌++◌, Option, none, some, nat_eq,
  PartialEq, ◌==◌, if◌then◌else◌,
}
use netmon.Base.Text.{Text, text, text_eq}
use netmon.Base.Numbers.{decimal, from_str_radix}
use netmon.Resolver.PidMap.{trim}
use netmon.Aggregator.Types.{ProcessRow}
use netmon.Aggregator.Publish.{is_blocked}
use netmon.Controller.Nft.{NftApi}
use netmon.Controller.Action.{Result, ok, err}
use netmon.Controller.Action
use netmon.Controller.Process.{block_process, unblock_process, rate_limit_process, unblock_all}
use netmon.Gui.Types.{NetmonApp, set_status}

-- The interface with the controller of its process.
pub record Session (Nft : Type 0) : Type 0 where
  pub app : NetmonApp
  pub control : Action.Control Nft

-- `blocked.insert(pid)`
unfoldable pub insert_pid : ℕ → List ℕ → List ℕ
insert_pid pid ps = if is_blocked ps pid then ps else pid ∷ ps

unfoldable pub remove_pid : ℕ → List ℕ → List ℕ
remove_pid pid [] = []
remove_pid pid (p ∷ ps) = let rest = remove_pid pid ps in if nat_eq p pid then rest else p ∷ rest

-- `{name} (PID {pid})`
abbrev label : Text → ℕ → Text
label name pid = name ++ (text " (PID " ++ (decimal pid ++ text ")"))

unfoldable pub after_block : ℕ → Text → Result (Unit {0}) → NetmonApp → NetmonApp
after_block pid name (ok u) a =
    set_status (text "Blocked " ++ label name pid)
      (record a { blocked_pids = insert_pid pid a.blocked_pids })
after_block pid name (err e) a =
    set_status (text "Block failed for PID " ++ (decimal pid ++ (text ": " ++ e))) a

unfoldable pub after_unblock : ℕ → Result (Unit {0}) → NetmonApp → NetmonApp
after_unblock pid (ok u) a =
    set_status (text "Unblocked PID " ++ decimal pid)
      (record a { blocked_pids = remove_pid pid a.blocked_pids })
after_unblock pid (err e) a =
    set_status (text "Unblock failed for PID " ++ (decimal pid ++ (text ": " ++ e))) a

-- `text.trim().parse::<u32>()`, if it is positive
unfoldable pub positive_rate : Text → Option ℕ
positive_rate input = elim (from_str_radix 0xffff_ffff 10 (trim input)) [
  | none ↦ none
  | some zero ↦ none
  | some (suc n) ↦ some (suc n)
]

abbrev join_with : Text → List Text → Text
join_with sep [] = []
join_with sep (t ∷ []) = t
join_with sep (t ∷ (u ∷ ts)) = t ++ (sep ++ join_with sep (u ∷ ts))

unfoldable pub block_user_status : Text → List Text → List Text → Text
block_user_status username [] [] = text "No active processes found for user " ++ username
block_user_status username [] (e ∷ es) =
    text "Failed to block user " ++ (username ++ (text ": " ++ join_with (text "; ") (e ∷ es)))
block_user_status username (l ∷ ls) [] =
    text "Blocked user " ++ (username ++ (text ": " ++ join_with (text ", ") (l ∷ ls)))
block_user_status username (l ∷ ls) (e ∷ es) =
    text "Blocked user " ++ (username ++ (text " with errors: " ++ join_with (text "; ") (e ∷ es)))

-- What the loop of `block_user` keeps: the processes tried, the labels and the errors.
pub record Blocking (Nft : Type 0) : Type 0 where
  pub session : Session Nft
  pub seen : List ℕ
  pub labels : List Text
  pub errors : List Text

abbrev pub first_blocking : {Nft : Type 0} → Session Nft → Blocking Nft
first_blocking s = record { session = s; seen = []; labels = []; errors = [] }

unfoldable pub block_outcome :
    {Nft : Type 0} → ProcessRow → Result (Unit {0}) → Blocking Nft → Blocking Nft
block_outcome row (ok u) b =
    let s = b.session in
    record b {
      session = record s {
        app = record s.app { blocked_pids = insert_pid row.info.pid s.app.blocked_pids };
      };
      labels = b.labels ++ (label row.info.name row.info.pid ∷ []);
    }
block_outcome row (err e) b = record b {
  errors = b.errors ++ ((text "PID " ++ (decimal row.info.pid ++ (text ": " ++ e))) ∷ []);
}

module _ (api : NftApi) (read_to_string : Text → Option Text) where
  open api use {Nft}

  unfoldable pub block_pid : ℕ → Text → Session Nft → Session Nft
  block_pid pid name s =
      let (r, c) = block_process api read_to_string pid name s.control in
      record { app = after_block pid name r s.app; control = c }

  unfoldable pub block_rows : Text → List ProcessRow → Blocking Nft → Blocking Nft
  block_rows username [] b = b
  block_rows username (row ∷ rest) b =
      let (r, c) = block_process api read_to_string row.info.pid row.info.name b.session.control in
      let skipped = block_rows username rest b in
      let tried = block_rows username rest (
        block_outcome row r
          record b { session = record b.session { control = c }; seen = row.info.pid ∷ b.seen }) in
      if not (row.info.username == username) || is_blocked b.seen row.info.pid
      then skipped
      else tried

  -- The loop over the rows of the table.
  unfoldable pub user_blocking : Text → Session Nft → Blocking Nft
  user_blocking username s = block_rows username s.app.rows_snapshot (first_blocking s)

  unfoldable pub block_user : Text → Session Nft → Session Nft
  unfolding user_blocking
  block_user username s =
      let b = user_blocking username s in
      let done = b.session in
      record done { app = set_status (block_user_status username b.labels b.errors) done.app }

  abbrev limit_status : ℕ → Text → ℕ → Result (Unit {0}) → Text
  limit_status pid name rate (ok u) =
      text "Rate-limited " ++ (label name pid ++ (text " to " ++ (decimal rate ++ text " kbit/s")))
  limit_status pid name rate (err e) =
      text "Rate limit failed for PID " ++ (decimal pid ++ (text ": " ++ e))

  unfoldable pub limit_at : ℕ → Text → Session Nft → Option ℕ → Session Nft
  limit_at pid name s none = record s {
    app = set_status (text "Enter a positive kbit/s value before limiting bandwidth") s.app;
  }
  limit_at pid name s (some rate) =
      let (r, c) = rate_limit_process api read_to_string pid rate s.control in
      record { app = set_status (limit_status pid name rate r) s.app; control = c }

  unfoldable pub limit_bandwidth : ℕ → Text → Session Nft → Session Nft
  limit_bandwidth pid name s = limit_at pid name s (positive_rate s.app.rate_limit_kbps_input)

  unfoldable pub confirm_pending : Session Nft → Option (ℕ × Text) → Session Nft
  confirm_pending s none = s
  confirm_pending s (some (pid, name)) =
      let s' = block_pid pid name s in record s' { app = record s'.app { pending_block = none } }

  -- The "Confirm" button, which the dialog shows while a block is pending.
  unfoldable pub confirm_block : Session Nft → Session Nft
  confirm_block s = confirm_pending s s.app.pending_block

-- "Block Process" of a connection asks first.
unfoldable pub ask_block : ℕ → Text → NetmonApp → NetmonApp
ask_block pid name a = record a { pending_block = some (pid, name) }

unfoldable pub cancel_block : NetmonApp → NetmonApp
cancel_block a = record a { pending_block = none }

module _ (api : NftApi) where
  open api use {Nft}

  unfoldable pub unblock_pid : ℕ → Session Nft → Session Nft
  unblock_pid pid s =
      let (r, c) = unblock_process api pid s.control in
      record { app = after_unblock pid r s.app; control = c }
