-- ===== src/Controller/Process/Kept.antt =====
-- Which calls of crates/controller/src/lib.rs leave the map of rules as it is.
use netmon.Base.{ℕ, ◌≡◌, refl, ◌∙◌, true, false, List, [], ◌∷◌, ℕ_eq}
use netmon.Base.Text.{Text, text, lines}
use netmon.HashMap.{get, remove}
use netmon.Controller.Handles.{handles_of_lines}
use netmon.Controller.Nft.{NftApi, list_handles, add_table, add_chain, delete_rule}
use netmon.Controller.Action.{
  Result, ok, err, Control, Action, ended, run, listing_result, pure, ◌>>=◌, run_nft_command,
  find_rule_handles, setup_nftables, delete_rules,
}
use netmon.Controller.Process.{or_empty, tracked_or_listed, remove_rules}

module _ {Nft : Type 0} where
  -- A call that leaves the map of rules as it is.
  abbrev pub Keeps : {A : Type 0} → Action Nft A → Type 0
  Keeps m = (c : Control Nft) → (m c).1.rules ≡ c.rules

  outcome-Keeps :
      {A B : Type 0} (f : A → Action Nft B) (r : Result A × Control Nft) (c : Control Nft)
      → ((a : A) → Keeps (f a))
      → r.1.rules ≡ c.rules
      → ((ended r >>= f) c).1.rules ≡ c.rules
  outcome-Keeps f (ok a, d) c kf k = kf a d ∙ k
  outcome-Keeps f (err e, d) c kf k = k

  pub bind-Keeps :
      {A B : Type 0} (m : Action Nft A) (f : A → Action Nft B)
      → Keeps m
      → ((a : A) → Keeps (f a))
      → Keeps (m >>= f)
  bind-Keeps m f km kf c = outcome-Keeps f (m c) c kf (km c)

module _ (api : NftApi) where
  open api use {Nft, execute, chain, listed, listing_keeps, deleted}

  pub find-Keeps : (marker : Text) → Keeps (find_rule_handles api marker)
  unfolding find_rule_handles
  find-Keeps marker =
      bind-Keeps
        (run api list_handles []
          (listing_result (text "failed to run nft list -a: ") (text "nft list -a failed: ")))
        (λ stdout. pure (handles_of_lines marker (lines stdout))) (λ d. refl) (λ out d. refl)

  delete_rules-Keeps : (hs : List ℕ) → Keeps (delete_rules api hs)
  unfolding delete_rules run_nft_command
  delete_rules-Keeps [] c = refl
  delete_rules-Keeps (h ∷ hs) c =
      bind-Keeps (run_nft_command api (delete_rule h) false) (λ u. delete_rules api hs) (λ d. refl)
        (λ u. delete_rules-Keeps hs) c

  tracked-Keeps : (hs : List ℕ) (marker : Text) → Keeps (tracked_or_listed api hs marker)
  tracked-Keeps [] marker c = find-Keeps marker c
  tracked-Keeps (h ∷ hs) marker c = refl

  -- Whether it ends well or not, a removal forgets the handles of its key.
  pub remove_rules-rules :
      (key : ℕ) (marker : Text) (c : Control Nft)
      → (remove_rules api key marker c).1.rules ≡ remove key c.rules
  unfolding remove_rules
  remove_rules-rules key marker c =
      bind-Keeps (tracked_or_listed api (or_empty (get key c.rules)) marker) (delete_rules api)
        (tracked-Keeps (or_empty (get key c.rules)) marker) delete_rules-Keeps
        (record c { rules = remove key c.rules })

  pub setup_nftables-Keeps : Keeps (setup_nftables api)
  unfolding setup_nftables run_nft_command
  setup_nftables-Keeps =
      bind-Keeps (run_nft_command api add_table true) (λ u. run_nft_command api add_chain true)
        (λ d. refl) (λ u d. refl)
