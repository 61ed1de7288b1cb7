-- ===== src/Controller/Process.antt =====
-- The operations on processes of crates/controller/src/lib.rs: block, unblock and rate limit.
pub mod Unblock
pub mod Kept
pub mod Failed
pub mod Block
pub mod RateLimit
use Prim.Native.Nat.{bit_or}
use mathlib.Core.Option.{bind}
use netmon.Base.{
  ℕ, Bool, true, false, List, [], ◌∷◌, ◌++◌, map, not, Option, none, some, nat_eq, get_elem?,
  if◌then◌else◌, ℕ_eq,
}
use netmon.Base.Text.{Text, text, strip_prefix, split_whitespace, lines}
use netmon.Base.Numbers.{decimal, from_str_radix}
use netmon.HashMap.{HashMap, get, insert, remove}
use netmon.Controller.Ports.{collect_pid_ports, build_block_ruleset, build_rate_limit_ruleset}
use netmon.Controller.Handles.{pid_marker}
use netmon.Controller.Nft.{NftApi, flush_chain}
use netmon.Controller.Action.{
  Result, ok, err, Control, Action, pure, raise, ◌>>=◌, ◌>>◌, ignoring, gets, modify, guard,
  run_nft_command, run_nft_script, find_rule_handles, setup_nftables, delete_rules,
}

abbrev uid_column : Text → Option ℕ
uid_column rest =
    bind (get_elem? (split_whitespace rest) 1) (λ uid. from_str_radix 0xffff_ffff 10 uid)

-- The first line `Uid:` decides.
unfoldable pub uid_of_status : List Text → Option ℕ
uid_of_status [] = none
uid_of_status (line ∷ rest) = elim (strip_prefix (text "Uid:") line) [
  | none ↦ uid_of_status rest
  | some columns ↦ uid_column columns
]

unfoldable pub read_uid_for_pid : (Text → Option Text) → ℕ → Option ℕ
read_uid_for_pid read_to_string pid =
    bind (read_to_string (text "/proc/" ++ (decimal pid ++ text "/status")))
      (λ content. uid_of_status (lines content))

-- `/proc/{pid}/net/{file}`
abbrev net_file : (Text → Option Text) → ℕ → Text → Option Text
net_file read_to_string pid file =
    read_to_string (text "/proc/" ++ (decimal pid ++ (text "/net/" ++ file)))

unfoldable pub tcp_ports : (Text → Option Text) → ℕ → List ℕ
tcp_ports read_to_string pid =
    collect_pid_ports
      (net_file read_to_string pid (text "tcp") ∷ net_file read_to_string pid (text "tcp6") ∷ []) []

unfoldable pub udp_ports : (Text → Option Text) → ℕ → List ℕ
udp_ports read_to_string pid =
    collect_pid_ports
      (net_file read_to_string pid (text "udp") ∷ net_file read_to_string pid (text "udp6") ∷ []) []

-- `process_name.replace('"', "_")`
abbrev safe_name : Text → Text
safe_name name = map (λ c. if nat_eq c 34 then 95 else c) name

-- The rule for all traffic of a user, where a process has no ports.
abbrev uid_rule : ℕ → Text → Text → Text
uid_rule uid limit comment =
    text "add rule inet filter output meta skuid "
    ++ (decimal uid
        ++ (text " " ++ (limit ++ (text "comment \"" ++ (comment ++ text "\" drop\n")))))

abbrev no_target : ℕ → Text
no_target pid = text "No TCP/UDP ports and could not read UID for PID " ++ decimal pid

-- The script for the ports, if there are any, or else for the user.
unfoldable pub rules_script : List ℕ → List ℕ → Option ℕ → ℕ → Text → Text → Text → Result Text
rules_script [] [] none pid limit comment port_rules = err (no_target pid)
rules_script [] [] (some uid) pid limit comment port_rules = ok (uid_rule uid limit comment)
rules_script (p ∷ ps) udp uid pid limit comment port_rules = ok port_rules
rules_script [] (p ∷ ps) uid pid limit comment port_rules = ok port_rules

unfoldable pub block_script : (Text → Option Text) → ℕ → Text → Result Text
block_script read_to_string pid name =
    let tcp = tcp_ports read_to_string pid in
    let udp = udp_ports read_to_string pid in
    let comment = pid_marker pid ++ safe_name name in
    rules_script tcp udp (read_uid_for_pid read_to_string pid) pid [] comment
      (build_block_ruleset tcp udp comment)

unfoldable pub rate_limit_marker : ℕ → Text
rate_limit_marker pid = pid_marker pid ++ text "rate-limit"

unfoldable pub rate_limit_script : (Text → Option Text) → ℕ → ℕ → Result Text
unfolding rate_limit_marker
rate_limit_script read_to_string pid rate_kbps =
    let tcp = tcp_ports read_to_string pid in
    let udp = udp_ports read_to_string pid in
    let comment = rate_limit_marker pid in
    rules_script tcp udp (read_uid_for_pid read_to_string pid) pid
      (text "limit rate over " ++ (decimal rate_kbps ++ text " kbytes/second ")) comment
      (build_rate_limit_ruleset tcp udp comment rate_kbps)

-- `pid | 0x8000_0000`, the key of the rate limits of a process
unfoldable pub rate_limit_key : ℕ → ℕ
rate_limit_key pid = bit_or pid 0x8000_0000

abbrev pub or_empty : Option (List ℕ) → List ℕ
or_empty none = []
or_empty (some hs) = hs

abbrev pub is_empty : List ℕ → Bool
is_empty [] = true
is_empty (h ∷ hs) = false

module _ (api : NftApi) where
  open api use {Nft}

  abbrev pub from_result : {A : Type 0} → Result A → Action Nft A
  from_result r c = (r, c)

  -- The tracked handles, or those of a listing where none is tracked.
  abbrev pub tracked_or_listed : List ℕ → Text → Action Nft (List ℕ)
  tracked_or_listed [] marker = find_rule_handles api marker
  tracked_or_listed (h ∷ hs) marker = pure (h ∷ hs)

  -- What `unblock_process` and `remove_rate_limit_rules_for_pid` do, each with its key and marker.
  unfoldable pub remove_rules : ℕ → Text → Action Nft (Unit {0})
  remove_rules key marker = do
    tracked ← gets (λ c. or_empty (get key c.rules))
    modify (remove key)
    handles ← tracked_or_listed tracked marker
    delete_rules api handles

  unfoldable pub unblock_process : ℕ → Action Nft (Unit {0})
  unblock_process pid = remove_rules pid (pid_marker pid)

  unfoldable pub remove_rate_limit_rules_for_pid : ℕ → Action Nft (Unit {0})
  remove_rate_limit_rules_for_pid pid = remove_rules (rate_limit_key pid) (rate_limit_marker pid)

  unfoldable pub block_process : (Text → Option Text) → ℕ → Text → Action Nft (Unit {0})
  block_process read_to_string pid process_name = do
    ignoring (setup_nftables api)
    ignoring (unblock_process pid)
    rules ← from_result (block_script read_to_string pid process_name)
    run_nft_script api rules
    handles ← find_rule_handles api (pid_marker pid)
    guard (not (is_empty handles)) (text "Inserted rules but could not find nft handles")
    modify (insert pid handles)

  unfoldable pub rate_limit_process : (Text → Option Text) → ℕ → ℕ → Action Nft (Unit {0})
  rate_limit_process read_to_string pid rate_kbps = do
    ignoring (setup_nftables api)
    remove_rate_limit_rules_for_pid pid
    rules ← from_result (rate_limit_script read_to_string pid rate_kbps)
    run_nft_script api rules
    handles ← find_rule_handles api (rate_limit_marker pid)
    guard (not (is_empty handles)) (text "Inserted rate-limit rules but could not find nft handles")
    modify (insert (rate_limit_key pid) handles)

  unfoldable pub unblock_all : Action Nft (Unit {0})
  unblock_all = do run_nft_command api flush_chain false; modify (λ rules. [])
