-- ===== src/Gui/Control/Users.antt =====
-- Blocking a user blocks each of the user's processes or reports why it could not.
use mathlib.Core.List.{Mem, mem-append_left, mem-append_right, mem-cons_self}
use netmon.Base.{
  ℕ, ◌≡◌, ◌≢◌, ne_of_eqb, ◌⊎◌, refl, sym, ap, ◌∙◌, subst, true, not, ◌||◌, List, [], ◌∷◌, ◌++◌,
  Option, arith, All, Bool-cases, if_cases, inl, inr, nat_eq, nat_eq_iff, ◌==◌,
}
use netmon.Base.Text.{Text, text, text_eq}
use netmon.Base.Numbers.{decimal}
use netmon.Aggregator.Types.{ProcessRow}
use netmon.Aggregator.Publish.{is_blocked}
use netmon.Controller.Nft.{NftApi}
use netmon.Controller.Action.{Result, ok, err}
use netmon.Controller.Process.{block_process}
use netmon.Gui.Control.{
  Session, Blocking, block_outcome, block_rows, block_user_status, first_blocking, user_blocking,
  block_user,
}
use netmon.Gui.Control.Shown.{insert_pid_self, is_blocked-insert_pid}

-- What the status says of a process whose block failed.
abbrev pub report : ℕ → Text → Text
report pid e = text "PID " ++ (decimal pid ++ (text ": " ++ e))

abbrev pub IsDone : {Nft : Type 0} → Blocking Nft → ℕ → Type 0
IsDone b pid =
    (is_blocked b.session.app.blocked_pids pid ≡ true) ⊎ ((e : Text) × Mem (report pid e) b.errors)

module _ {Nft : Type 0} where
  block_outcome-IsDone :
      (row : ProcessRow) (r : Result (Unit {0})) (b : Blocking Nft) (pid : ℕ)
      → IsDone b pid
      → IsDone (block_outcome row r b) pid
  unfolding block_outcome
  block_outcome-IsDone row (ok u) b pid (inl h) =
      inl (is_blocked-insert_pid row.info.pid pid b.session.app.blocked_pids h)
  block_outcome-IsDone row (ok u) b pid (inr r) = inr r
  block_outcome-IsDone row (err x) b pid (inl h) = inl h
  block_outcome-IsDone row (err x) b pid (inr (e, m)) = inr (e, mem-append_left _ m)

  block_outcome_self :
      (row : ProcessRow) (r : Result (Unit {0})) (b : Blocking Nft)
      → IsDone (block_outcome row r b) row.info.pid
  unfolding block_outcome
  block_outcome_self row (ok u) b = inl (insert_pid_self row.info.pid b.session.app.blocked_pids)
  block_outcome_self row (err x) b = inr (x, mem-append_right b.errors mem-cons_self)

  block_outcome-seen :
      (row : ProcessRow) (r : Result (Unit {0})) (b : Blocking Nft)
      → (block_outcome row r b).seen ≡ b.seen
  unfolding block_outcome
  block_outcome-seen row (ok u) b = refl
  block_outcome-seen row (err x) b = refl

-- The rows of a user whose blocks were tried.
abbrev pub AreDone : {Nft : Type 0} → Text → List ProcessRow → Blocking Nft → Type 0
AreDone username rows b = All (λ row. (row.info.username ≢ username) ⊎ IsDone b row.info.pid) rows

module _ (api : NftApi) (read_to_string : Text → Option Text) where
  open api use {Nft}

  -- The next state of the loop where a row's block is tried.
  abbrev tried : ProcessRow → Blocking Nft → Blocking Nft
  tried row b =
      let (r, c) = block_process api read_to_string row.info.pid row.info.name b.session.control in
      block_outcome row r
        record b { session = record b.session { control = c }; seen = row.info.pid ∷ b.seen }

  block_rows-IsDone :
      (username : Text) (rows : List ProcessRow) (b : Blocking Nft) (pid : ℕ)
      → IsDone b pid
      → IsDone (block_rows api read_to_string username rows b) pid
  unfolding block_rows
  block_rows-IsDone username [] b pid h = h
  block_rows-IsDone username (row ∷ rest) b pid h =
      if_cases (λ (d : Blocking Nft). IsDone d pid)
        (not (row.info.username == username) || is_blocked b.seen row.info.pid) _ _
        (λ y. block_rows-IsDone username rest b pid h)
        (λ n.
          block_rows-IsDone username rest (tried row b) pid (block_outcome-IsDone row _ _ pid h))

  abbrev SeenDone : Blocking Nft → Type 0
  SeenDone b = (pid : ℕ) → is_blocked b.seen pid ≡ true → IsDone b pid

  tried-SeenDone : (row : ProcessRow) (b : Blocking Nft) → SeenDone b → SeenDone (tried row b)
  unfolding is_blocked
  tried-SeenDone row b h pid m = elim (Bool-cases (nat_eq row.info.pid pid)) [
    | inl y ↦
        subst (IsDone (tried row b)) ((nat_eq_iff row.info.pid pid).0 y)
          (block_outcome_self row result next)
    | inr n ↦ block_outcome-IsDone row result next pid (h pid (rw n at seen))
  ]
    where
      result : Result (Unit {0})
      result = (block_process api read_to_string row.info.pid row.info.name b.session.control).0

      next : Blocking Nft
      next = record b {
        session = record b.session {
          control =
              (block_process api read_to_string row.info.pid row.info.name b.session.control).1;
        };
        seen = row.info.pid ∷ b.seen;
      }

      seen : is_blocked (row.info.pid ∷ b.seen) pid ≡ true
      seen = ap (λ ps. is_blocked ps pid) (sym (block_outcome-seen row result next)) ∙ m

  skipped :
      (username : Text) (row : ProcessRow) (rest : List ProcessRow) (b : Blocking Nft)
      → SeenDone b
      → (not (row.info.username == username) || is_blocked b.seen row.info.pid) ≡ true
      → (row.info.username ≢ username)
        ⊎ IsDone (block_rows api read_to_string username rest b) row.info.pid
  skipped username row rest b h y = elim (Bool-cases (is_blocked b.seen row.info.pid)) [
    | inl s ↦ inr (block_rows-IsDone username rest b row.info.pid (h row.info.pid s))
    | inr n ↦ inl (ne_of_eqb text_eq row.info.username username (ground arith))
  ]

  block_rows-AreDone :
      (username : Text) (rows : List ProcessRow) (b : Blocking Nft)
      → SeenDone b
      → AreDone username rows (block_rows api read_to_string username rows b)
  unfolding block_rows
  block_rows-AreDone username [] b h = tt
  block_rows-AreDone username (row ∷ rest) b h =
      if_cases (AreDone username (row ∷ rest))
        (not (row.info.username == username) || is_blocked b.seen row.info.pid) _ _
        (λ y. (skipped username row rest b h y, block_rows-AreDone username rest b h))
        (λ n. (
          inr (
              block_rows-IsDone username rest (tried row b) row.info.pid
                (block_outcome_self row _ _)),
          block_rows-AreDone username rest (tried row b) (tried-SeenDone row b h),
        ))

  nobody_seen : (pid : ℕ) → is_blocked [] pid ≢ true
  unfolding is_blocked
  nobody_seen pid m = cc m

  -- After a user is blocked, each process of the user in the table is shown as blocked, or an error of
  -- its block is among those that the status is made from.
  pub block_user-AreDone :
      (username : Text) (s : Session Nft)
      → AreDone username s.app.rows_snapshot (user_blocking api read_to_string username s)
        × ((block_user api read_to_string username s).app.blocked_pids
            ≡ (user_blocking api read_to_string username s).session.app.blocked_pids)
        × ((block_user api read_to_string username s).app.status_snapshot
            ≡ block_user_status username
                (user_blocking api read_to_string username s).labels
                (user_blocking api read_to_string username s).errors)
  unfolding block_user user_blocking
  block_user-AreDone username s = (
    block_rows-AreDone username s.app.rows_snapshot (first_blocking s)
        (λ pid m. absurd (nobody_seen pid m)),
    refl,
    refl,
  )
