-- ===== src/Controller/Ports.antt =====
-- The source ports of a process and the rule sets over them, in crates/controller/src/lib.rs. A
-- file of `/proc` is its text, or none where it cannot be read.
use mathlib.Core.Option.{bind}
use netmon.Base.{
  ℕ, List, [], ◌∷◌, ◌++◌, Option, none, some, ltb, nat_eq, get_elem?, get_or, drop, length,
  if◌then◌else◌,
}
use netmon.Base.Text.{Text, text, split_on, split_whitespace, lines}
use netmon.Base.Numbers.{decimal, from_str_radix}

unfoldable pub parse_port_from_proc_addr : Text → Option ℕ
parse_port_from_proc_addr proc_addr =
    bind (get_elem? (split_on 58 proc_addr) 1) (λ port_hex. from_str_radix 0xffff 16 port_hex)

-- A `BTreeSet<u16>` is its ports in ascending order.
unfoldable pub insert_port : ℕ → List ℕ → List ℕ
insert_port p [] = p ∷ []
insert_port p (q ∷ qs) =
    let rest = insert_port p qs in
    if ltb p q then p ∷ q ∷ qs else if nat_eq p q then q ∷ qs else q ∷ rest

abbrev insert_some : Option ℕ → List ℕ → List ℕ
insert_some none ports = ports
insert_some (some p) ports = insert_port p ports

unfoldable pub ports_of_lines : List Text → List ℕ → List ℕ
ports_of_lines [] ports = ports
ports_of_lines (line ∷ rest) ports =
    let cols = split_whitespace line in
    ports_of_lines rest (
      if ltb (length cols) 2
      then ports
      else insert_some (parse_port_from_proc_addr (get_or cols 1 [])) ports)

-- The contents of the files in turn.
unfoldable pub collect_pid_ports : List (Option Text) → List ℕ → List ℕ
collect_pid_ports [] ports = ports
collect_pid_ports (none ∷ rest) ports = collect_pid_ports rest ports
collect_pid_ports (some content ∷ rest) ports =
    collect_pid_ports rest (ports_of_lines (drop 1 (lines content)) ports)

unfoldable pub join_ports : List ℕ → Text
join_ports [] = []
join_ports (p ∷ []) = decimal p
join_ports (p ∷ q ∷ qs) = decimal p ++ (text ", " ++ join_ports (q ∷ qs))

abbrev add_rule : Text
add_rule = text "add rule inet filter output "

-- The rule for the ports of one protocol, if there are any; `limit` is empty for a block.
unfoldable pub port_rule : Text → List ℕ → Text → Text → Text
port_rule protocol [] limit comment = []
port_rule protocol (p ∷ ps) limit comment =
    add_rule
    ++ (protocol
        ++ (text " sport { "
            ++ (join_ports (p ∷ ps)
                ++ (text " } "
                    ++ (limit ++ (text "comment \"" ++ (comment ++ text "\" drop\n")))))))

unfoldable pub build_block_ruleset : List ℕ → List ℕ → Text → Text
build_block_ruleset tcp_ports udp_ports comment =
    port_rule (text "tcp") tcp_ports [] comment ++ port_rule (text "udp") udp_ports [] comment

unfoldable pub build_rate_limit_ruleset : List ℕ → List ℕ → Text → ℕ → Text
build_rate_limit_ruleset tcp_ports udp_ports comment rate_kbps =
    let limit = text "limit rate over " ++ (decimal rate_kbps ++ text " kbytes/second ") in
    port_rule (text "tcp") tcp_ports limit comment ++ port_rule (text "udp") udp_ports limit comment
