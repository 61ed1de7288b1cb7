-- ===== src/Controller/Tests/Runs.antt =====
-- Runs of the controller with the nft of two rules.
use mathlib.Core.Bool.{decide}
use mathlib.Core.Option.{bind}
use netmon.Base.{◌∷◌, ◌≡◌, ◌≢◌, refl, true, false, [], none, some, ℕ_discrete, ℕ_eq, arith}
use netmon.Base.Text.{
  text, Text-discrete, strip_prefix, starts_with, lines, split_on, prepend, split_whitespace,
  non_empty,
}
use netmon.Base.Numbers.{decimal, digits, from_str_radix, unsigned_digits, parse_digits, to_digit}
use netmon.HashMap.{DistinctKeys, get, insert, remove}
use netmon.Resolver.PidMap.{trim, trim_start}
use netmon.Controller.Ports.{collect_pid_ports, ports_of_lines}
use netmon.Controller.Handles.{
  contains, after_last, handle_of_line, handles_of_lines, pid_marker, find_rule_handles_for_pid,
}
use netmon.Controller.Nft.{rule_line, arguments, without_all, marked}
use netmon.Controller.Action.{
  ok, err, command_result, script_result, listing_result, run_nft_command, run_nft_script,
  find_rule_handles, setup_nftables, delete_rules,
}
use netmon.Controller.Process.{
  uid_of_status, read_uid_for_pid, tcp_ports, udp_ports, rules_script, block_script,
  rate_limit_marker, rate_limit_script, rate_limit_key, is_empty, remove_rules, unblock_process,
  remove_rate_limit_rules_for_pid, block_process, rate_limit_process, unblock_all,
}
use netmon.Controller.Listing.{find_rule_handles_for_pid-marked}
use netmon.Controller.Process.Unblock.{removed_handles, unblock_process-eq-ok}
use netmon.Controller.Process.Block.{block_process-eq-ok, unblock_process-block_process}
use netmon.Controller.Process.Failed.{block_process-eq-err}
use netmon.Controller.Process.RateLimit.{is_err, rate_limit_process-unblock_process}
use netmon.Controller.Tests.World.{
  chain_of, table_lines, closing_lines, listing, table_plain, closing_lines_plain, handles_small,
  listing_shows, world, nft_run, start, blocked, limited, key_42, status_file, unreadable, emptied,
}

blocks_42 : block_process world status_file 42 (text "curl") start ≡ (ok tt, blocked)
unfolding world start blocked limited nft_run arguments setup_nftables remove_rules unblock_process
    find_rule_handles run_nft_command run_nft_script delete_rules command_result script_result
    listing_result block_script rate_limit_script tcp_ports udp_ports read_uid_for_pid uid_of_status
    rules_script collect_pid_ports ports_of_lines pid_marker rate_limit_marker rate_limit_key
    decimal digits handles_of_lines get insert remove handle_of_line contains after_last starts_with
    strip_prefix lines split_on prepend split_whitespace non_empty trim trim_start from_str_radix
    unsigned_digits parse_digits to_digit Text-discrete decide ℕ_discrete bind block_process
    rate_limit_process remove_rate_limit_rules_for_pid unblock_all unreadable key_42 emptied
    rule_line
blocks_42 = refl

unblocks_42 : unblock_process world 42 blocked ≡ (ok tt, start)
unfolding world start blocked limited nft_run arguments setup_nftables remove_rules unblock_process
    find_rule_handles run_nft_command run_nft_script delete_rules command_result script_result
    listing_result block_script rate_limit_script tcp_ports udp_ports read_uid_for_pid uid_of_status
    rules_script collect_pid_ports ports_of_lines pid_marker rate_limit_marker rate_limit_key
    decimal digits handles_of_lines get insert remove handle_of_line contains after_last starts_with
    strip_prefix lines split_on prepend split_whitespace non_empty trim trim_start from_str_radix
    unsigned_digits parse_digits to_digit Text-discrete decide ℕ_discrete bind block_process
    rate_limit_process remove_rate_limit_rules_for_pid unblock_all unreadable key_42 emptied
    rule_line
unblocks_42 = refl

limits_42 : rate_limit_process world status_file 42 8 start ≡ (ok tt, limited)
unfolding world start blocked limited nft_run arguments setup_nftables remove_rules unblock_process
    find_rule_handles run_nft_command run_nft_script delete_rules command_result script_result
    listing_result block_script rate_limit_script tcp_ports udp_ports read_uid_for_pid uid_of_status
    rules_script collect_pid_ports ports_of_lines pid_marker rate_limit_marker rate_limit_key
    decimal digits handles_of_lines get insert remove handle_of_line contains after_last starts_with
    strip_prefix lines split_on prepend split_whitespace non_empty trim trim_start from_str_radix
    unsigned_digits parse_digits to_digit Text-discrete decide ℕ_discrete bind block_process
    rate_limit_process remove_rate_limit_rules_for_pid unblock_all unreadable key_42 emptied
    rule_line
limits_42 = refl

unblocks_limited_42 : unblock_process world 42 limited ≡ (ok tt, key_42)
unfolding world start blocked limited nft_run arguments setup_nftables remove_rules unblock_process
    find_rule_handles run_nft_command run_nft_script delete_rules command_result script_result
    listing_result block_script rate_limit_script tcp_ports udp_ports read_uid_for_pid uid_of_status
    rules_script collect_pid_ports ports_of_lines pid_marker rate_limit_marker rate_limit_key
    decimal digits handles_of_lines get insert remove handle_of_line contains after_last starts_with
    strip_prefix lines split_on prepend split_whitespace non_empty trim trim_start from_str_radix
    unsigned_digits parse_digits to_digit Text-discrete decide ℕ_discrete bind block_process
    rate_limit_process remove_rate_limit_rules_for_pid unblock_all unreadable key_42 emptied
    rule_line
unblocks_limited_42 = refl

pub no_user_42 :
    block_process world unreadable 42 (text "curl") blocked
    ≡ (err (text "No TCP/UDP ports and could not read UID for PID 42"), start)
unfolding world start blocked limited nft_run arguments setup_nftables remove_rules unblock_process
    find_rule_handles run_nft_command run_nft_script delete_rules command_result script_result
    listing_result block_script rate_limit_script tcp_ports udp_ports read_uid_for_pid uid_of_status
    rules_script collect_pid_ports ports_of_lines pid_marker rate_limit_marker rate_limit_key
    decimal digits handles_of_lines get insert remove handle_of_line contains after_last starts_with
    strip_prefix lines split_on prepend split_whitespace non_empty trim trim_start from_str_radix
    unsigned_digits parse_digits to_digit Text-discrete decide ℕ_discrete bind block_process
    rate_limit_process remove_rate_limit_rules_for_pid unblock_all unreadable key_42 emptied
    rule_line
no_user_42 = refl

unblocks_all : unblock_all world blocked ≡ (ok tt, emptied)
unfolding world start blocked limited nft_run arguments setup_nftables remove_rules unblock_process
    find_rule_handles run_nft_command run_nft_script delete_rules command_result script_result
    listing_result block_script rate_limit_script tcp_ports udp_ports read_uid_for_pid uid_of_status
    rules_script collect_pid_ports ports_of_lines pid_marker rate_limit_marker rate_limit_key
    decimal digits handles_of_lines get insert remove handle_of_line contains after_last starts_with
    strip_prefix lines split_on prepend split_whitespace non_empty trim trim_start from_str_radix
    unsigned_digits parse_digits to_digit Text-discrete decide ℕ_discrete bind block_process
    rate_limit_process remove_rate_limit_rules_for_pid unblock_all unreadable key_42 emptied
    rule_line
unblocks_all = refl

pub blocked_distinct : DistinctKeys blocked.rules
unfolding blocked get
blocked_distinct = (refl, tt)

key_42-ne : rate_limit_key 42 ≢ 42
unfolding rate_limit_key
key_42-ne p = ground arith

no_block_42 : get 42 limited.rules ≡ none
unfolding limited rate_limit_key get
no_block_42 = refl

unblock_process-eq-ok_example :
    (world.chain start.nft
      ≡ without_all (removed_handles world 42 (pid_marker 42) blocked) (world.chain blocked.nft))
    × (start.rules ≡ remove 42 blocked.rules)
unblock_process-eq-ok_example = unblock_process-eq-ok world 42 blocked start unblocks_42

block_process-eq-ok_example :
    (get 42 blocked.rules ≡ some (marked (pid_marker 42) (world.chain blocked.nft)))
    × (is_empty (marked (pid_marker 42) (world.chain blocked.nft)) ≡ false)
block_process-eq-ok_example =
    block_process-eq-ok world status_file 42 (text "curl") start blocked blocks_42

unblock_process-block_process_example : marked (pid_marker 42) (world.chain start.nft) ≡ []
unblock_process-block_process_example =
    unblock_process-block_process world status_file 42 (text "curl") start blocked start blocks_42
      unblocks_42

block_process-eq-err_example : get 42 start.rules ≡ none
block_process-eq-err_example =
    block_process-eq-err world unreadable 42 (text "curl")
      (text "No TCP/UDP ports and could not read UID for PID 42") blocked start blocked_distinct
      no_user_42

rate_limit_process-unblock_process_example :
    is_err (rate_limit_process world status_file 42 16 key_42).0 ≡ true
rate_limit_process-unblock_process_example =
    rate_limit_process-unblock_process world status_file 42 8 16 start limited key_42 key_42-ne
      limits_42 no_block_42 unblocks_limited_42

find_rule_handles_for_pid-marked_example :
    find_rule_handles_for_pid (listing (true, true)) 7 ≡ 9 ∷ []
unfolding pid_marker decimal digits contains starts_with strip_prefix rule_line
find_rule_handles_for_pid-marked_example =
    find_rule_handles_for_pid-marked (listing (true, true)) table_lines closing_lines
      (chain_of (true, true)) 7 table_plain closing_lines_plain (handles_small (true, true))
      (listing_shows (true, true))
