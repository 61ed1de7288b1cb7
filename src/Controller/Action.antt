-- ===== src/Controller/Action.antt =====
-- A call of the controller: it may fail with a message, and what it has done to nft and to the map
-- of rules stays done. The lock on the map is never poisoned, since no call panics with it held.
use netmon.Base.{ℕ, Bool, true, false, List, [], ◌∷◌, ◌++◌, if◌then◌else◌, ℕ_eq}
use netmon.Base.Text.{Text, text, lines}
use netmon.HashMap.{HashMap}
use netmon.Controller.Handles.{contains, handles_of_lines}
use netmon.Controller.Nft.{
  Command, add_table, add_chain, list_handles, list_chain, delete_rule, load_script, arguments,
  Reply, not_found, not_spawned, not_written, not_awaited, exited, NftApi,
}

pub data Result (A : Type 0) : Type 0 where
  ok : A → Result A
  err : Text → Result A

-- The nft program's own state, and `RULES_BY_PID`.
pub record Control (Nft : Type 0) : Type 0 where
  pub nft : Nft
  pub rules : HashMap ℕ (List ℕ)

abbrev pub Action : Type 0 → Type 0 → Type 0
Action Nft A = Control Nft → Result A × Control Nft

-- `map_nft_spawn_error`
abbrev install_hint : Text
install_hint = text "Blocking failed: nft not found. Install with: sudo apt-get install nftables"

module _ {Nft : Type 0} where
  abbrev pub pure : {A : Type 0} → A → Action Nft A
  pure a c = (ok a, c)

  abbrev pub raise : {A : Type 0} → Text → Action Nft A
  raise e c = (err e, c)

  -- A call with this outcome.
  abbrev pub ended : {A : Type 0} → Result A × Control Nft → Action Nft A
  ended r c = r

  infixl 5 ◌>>=◌ ◌>>◌
  abbrev pub ◌>>=◌ : {A B : Type 0} → Action Nft A → (A → Action Nft B) → Action Nft B
  ◌>>=◌ m f c = let (r, c') = m c in elim r [ ok a ↦ f a c' | err e ↦ raise e c' ]

  abbrev pub ◌>>◌ : {B : Type 0} → Action Nft (Unit {0}) → Action Nft B → Action Nft B
  m >> k = m >>= λ _. k

  -- `let _ = call;`
  abbrev pub ignoring : {A : Type 0} → Action Nft A → Action Nft (Unit {0})
  ignoring m c = (ok tt, (m c).1)

  abbrev pub gets : {A : Type 0} → (Control Nft → A) → Action Nft A
  gets f c = (ok (f c), c)

  abbrev pub modify : (HashMap ℕ (List ℕ) → HashMap ℕ (List ℕ)) → Action Nft (Unit {0})
  modify f c = (ok tt, record c { rules = f c.rules })

  abbrev pub guard : Bool → Text → Action Nft (Unit {0})
  guard true e = pure tt
  guard false e = raise e

-- What `run_nft_command` makes of a run.
unfoldable pub command_result : Bool → Reply → Result (Unit {0})
command_result ignore_exists (not_found e) = err install_hint
command_result ignore_exists (not_spawned e) = err (text "failed to run nft: " ++ e)
command_result ignore_exists (not_written e) = err (text "failed to run nft: " ++ e)
command_result ignore_exists (not_awaited e) = err (text "failed to run nft: " ++ e)
command_result ignore_exists (exited true out error) = ok tt
command_result ignore_exists (exited false out error) =
    if (if ignore_exists then contains (text "File exists") error else false)
    then ok tt
    else err (text "nft command error: " ++ error)

-- What `run_nft_script` makes of it.
unfoldable pub script_result : Reply → Result (Unit {0})
script_result (not_found e) = err install_hint
script_result (not_spawned e) = err (text "failed to run nft: " ++ e)
script_result (not_written e) = err (text "failed writing nft ruleset to stdin: " ++ e)
script_result (not_awaited e) = err (text "failed waiting on nft: " ++ e)
script_result (exited true out error) = ok tt
script_result (exited false out error) =
    err (text "nft failed. stdout: " ++ (out ++ (text ". stderr: " ++ error)))

-- The output of a listing; its two error texts.
unfoldable pub listing_result : Text → Text → Reply → Result Text
listing_result not_run failed (not_found e) = err (not_run ++ e)
listing_result not_run failed (not_spawned e) = err (not_run ++ e)
listing_result not_run failed (not_written e) = err (not_run ++ e)
listing_result not_run failed (not_awaited e) = err (not_run ++ e)
listing_result not_run failed (exited true out error) = ok out
listing_result not_run failed (exited false out error) = err (failed ++ error)

module _ (api : NftApi) where
  open api use {Nft, execute}

  abbrev pub run : {A : Type 0} → Command → Text → (Reply → Result A) → Action Nft A
  run command stdin result c =
      let (reply, n') = execute (arguments command) stdin c.nft in
      (result reply, record c { nft = n' })

  unfoldable pub run_nft_command : Command → Bool → Action Nft (Unit {0})
  run_nft_command command ignore_exists = run command [] (command_result ignore_exists)

  unfoldable pub run_nft_script : Text → Action Nft (Unit {0})
  run_nft_script script = run (load_script script) script script_result

  -- The handles behind a marker, for `find_rule_handles_for_pid` and `find_rule_handles_for_pid_comment`.
  unfoldable pub find_rule_handles : Text → Action Nft (List ℕ)
  find_rule_handles marker = do
    stdout ←
        run list_handles []
          (listing_result (text "failed to run nft list -a: ") (text "nft list -a failed: "))
    pure (handles_of_lines marker (lines stdout))

  unfoldable pub list_rules : Action Nft (List Text)
  list_rules = do
    stdout ←
        run list_chain [] (listing_result (text "failed to run nft: ") (text "nft list failed: "))
    pure (lines stdout)

  unfoldable pub setup_nftables : Action Nft (Unit {0})
  setup_nftables = do run_nft_command add_table true; run_nft_command add_chain true

  -- `for handle in handles { run_nft_command(["delete", ...], false)?; }`
  unfoldable pub delete_rules : List ℕ → Action Nft (Unit {0})
  delete_rules [] = pure tt
  delete_rules (h ∷ hs) = do run_nft_command (delete_rule h) false; delete_rules hs
