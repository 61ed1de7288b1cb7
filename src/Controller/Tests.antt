-- ===== src/Controller/Tests.antt =====
-- The controller on a concrete listing.
pub mod World
pub mod Runs
use mathlib.Core.List.{Mem, mem-cons_self}
use netmon.Base.{◌≡◌, refl, sym, subst, [], ◌∷◌}
use netmon.Base.Text.{Text, text, strip_prefix, starts_with, lines, split_on, prepend}
use netmon.Base.Numbers.{decimal, digits, from_str_radix, unsigned_digits, parse_digits, to_digit}
use netmon.Resolver.PidMap.{trim, trim_start}
use netmon.Controller.Handles.{
  contains, after_last, handle_of_line, handles_of_lines, pid_marker, find_rule_handles_for_pid,
  find_rule_handles_for_pid_comment, find_rule_handles_for_pid_comment-Mem,
}

-- A chain with a rate limit of process 42 and a block of process 7.
abbrev listing : Text
listing =
    text
      "tcp sport 80 comment \"netmon-pid-42-rate-limit\" drop # handle 12\nudp sport 53 comment \"netmon-pid-7-x\" drop # handle 9\n"

rate_limit_handles : find_rule_handles_for_pid_comment listing 42 (text "rate-limit") ≡ 12 ∷ []
unfolding find_rule_handles_for_pid_comment pid_marker decimal digits handles_of_lines
    handle_of_line contains after_last starts_with strip_prefix lines split_on prepend trim
    trim_start from_str_radix unsigned_digits parse_digits to_digit
rate_limit_handles = refl

find_rule_handles_for_pid_comment-Mem_example : Mem 12 (find_rule_handles_for_pid listing 42)
find_rule_handles_for_pid_comment-Mem_example =
    find_rule_handles_for_pid_comment-Mem listing 42 (text "rate-limit") 12
      (subst (λ hs. Mem 12 hs) (sym rate_limit_handles) mem-cons_self)
