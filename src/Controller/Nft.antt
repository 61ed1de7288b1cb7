-- ===== src/Controller/Nft.antt =====
-- The nft program as crates/controller/src/lib.rs runs it: its command lines, what a run gives back,
-- and what the controller relies on of the chain that nft keeps.
use netmon.Base.{
  ℕ, ◌≡◌, ◌≤◌, Bool, true, false, List, [], ◌∷◌, ◌++◌, map, nat_eq, if◌then◌else◌, All,
}
use netmon.Base.Word.{u64_max}
use netmon.Base.Text.{Text, text, lines}
use netmon.Base.Numbers.{decimal}
use netmon.Controller.Handles.{contains}

pub data Command : Type 0 where
  add_table add_chain flush_chain list_chain list_handles : Command
  delete_rule : ℕ → Command
  load_script : Text → Command

abbrev output_chain : List Text
output_chain = text "inet" ∷ text "filter" ∷ text "output" ∷ []

-- The arguments of a run; a script is given on its standard input.
unfoldable pub arguments : Command → List Text
arguments add_table = text "add" ∷ text "table" ∷ text "inet" ∷ text "filter" ∷ []
arguments add_chain =
    text "add"
    ∷ text "chain"
    ∷ (output_chain
        ++ (text "{"
            ∷ text "type"
            ∷ text "filter"
            ∷ text "hook"
            ∷ text "output"
            ∷ text "priority"
            ∷ text "0"
            ∷ text ";"
            ∷ text "policy"
            ∷ text "accept"
            ∷ text ";"
            ∷ text "}"
            ∷ []))
arguments flush_chain = text "flush" ∷ text "chain" ∷ output_chain
arguments list_chain = text "list" ∷ text "chain" ∷ output_chain
arguments list_handles = text "-a" ∷ text "list" ∷ text "chain" ∷ output_chain
arguments (delete_rule h) =
    text "delete" ∷ text "rule" ∷ (output_chain ++ (text "handle" ∷ decimal h ∷ []))
arguments (load_script script) = text "-f" ∷ text "-" ∷ []

-- A run that was never started (for want of the program, or for another reason), one whose input or
-- end failed, or one that ended: whether in success, and its two outputs.
pub data Reply : Type 0 where
  not_found not_spawned not_written not_awaited : Text → Reply
  exited : Bool → Text → Text → Reply

abbrev pub succeeded : Reply → Bool
succeeded (exited success out error) = success
succeeded (not_found e) = false
succeeded (not_spawned e) = false
succeeded (not_written e) = false
succeeded (not_awaited e) = false

-- A rule of the chain: its handle, and the rule as a listing shows it.
pub record Rule : Type 0 where
  pub handle : ℕ
  pub statement : Text

-- The line of a rule in a listing with handles.
unfoldable pub rule_line : Rule → Text
rule_line r = r.statement ++ (text " # handle " ++ decimal r.handle)

-- The prefix of the comments of all rules of the program
abbrev pub comment_prefix : Text
comment_prefix = text "netmon-pid-"

-- The rules but the one with this handle.
abbrev pub without : ℕ → List Rule → List Rule
without h [] = []
without h (r ∷ rs) = let rest = without h rs in if nat_eq r.handle h then rest else r ∷ rest

abbrev pub without_all : List ℕ → List Rule → List Rule
without_all [] rs = rs
without_all (h ∷ hs) rs = without_all hs (without h rs)

-- The handles of the rules that a listing shows with a marker.
abbrev pub marked : Text → List Rule → List ℕ
marked marker [] = []
marked marker (r ∷ rs) =
    let rest = marked marker rs in if contains marker (rule_line r) then r.handle ∷ rest else rest

abbrev pub has_handle : ℕ → List Rule → Bool
has_handle h [] = false
has_handle h (r ∷ rs) = if nat_eq r.handle h then true else has_handle h rs

pub record NftApi : Type 1 where
  pub Nft : Type 0
  pub execute : List Text → Text → Nft → Reply × Nft
  -- The rules of the chain `output`.
  pub chain : Nft → List Rule
  -- The lines that a listing shows before and after the rules: the table, the chain, its type and
  -- the closing brackets. None of them is a comment of the program.
  pub opening : Nft → List Text
  pub closing : Nft → List Text
  pub opening_plain : (n : Nft) → All (λ l. contains comment_prefix l ≡ false) (opening n)
  pub closing_plain : (n : Nft) → All (λ l. contains comment_prefix l ≡ false) (closing n)
  -- A handle is an unsigned integer of 64 bits.
  pub handles_fit : (n : Nft) → All (λ r. r.handle ≤ u64_max) (chain n)
  -- A listing with handles shows one rule on a line, which ends in ` # handle ` and the handle in
  -- decimal, and changes nothing.
  pub listed :
      (n : Nft) (out error : Text)
      → (execute (arguments list_handles) [] n).0 ≡ exited true out error
      → lines out ≡ opening n ++ (map rule_line (chain n) ++ closing n)
  pub listing_keeps : (n : Nft) → chain (execute (arguments list_handles) [] n).1 ≡ chain n
  -- A deletion that succeeds removes the rule with its handle; where there is no such rule, it fails.
  pub deleted :
      (n : Nft) (h : ℕ)
      → succeeded (execute (arguments (delete_rule h)) [] n).0 ≡ true
      → chain (execute (arguments (delete_rule h)) [] n).1 ≡ without h (chain n)
  pub absent :
      (n : Nft) (h : ℕ)
      → has_handle h (chain n) ≡ false
      → succeeded (execute (arguments (delete_rule h)) [] n).0 ≡ false
  -- Creating the table and the chain, where they are missing, keeps the rules.
  pub table_keeps : (n : Nft) → chain (execute (arguments add_table) [] n).1 ≡ chain n
  pub chain_keeps : (n : Nft) → chain (execute (arguments add_chain) [] n).1 ≡ chain n
  -- Flushing the chain empties it.
  pub flushed :
      (n : Nft)
      → succeeded (execute (arguments flush_chain) [] n).0 ≡ true
      → chain (execute (arguments flush_chain) [] n).1 ≡ []
