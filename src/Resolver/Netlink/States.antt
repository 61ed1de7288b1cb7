-- ===== src/Resolver/Netlink/States.antt =====
-- The states of a socket as `tcp_state_to_str` of crates/resolver/src/netlink.rs names them, against
-- a table.
use netmon.Base.{ℕ, zero, suc, ◌≡◌, refl, List, [], ◌∷◌, arith, get_or}
use netmon.Base.Text.{Text, text}
use netmon.Resolver.Netlink.{tcp_state_to_str}

-- The names of the states, by their numbers in the kernel.
abbrev pub state_names : List Text
state_names =
    text "UNKNOWN"
    ∷ text "ESTABLISHED"
    ∷ text "SYN_SENT"
    ∷ text "SYN_RECV"
    ∷ text "FIN_WAIT1"
    ∷ text "FIN_WAIT2"
    ∷ text "TIME_WAIT"
    ∷ text "CLOSE"
    ∷ text "CLOSE_WAIT"
    ∷ text "LAST_ACK"
    ∷ text "LISTEN"
    ∷ text "CLOSING"
    ∷ []

abbrev pub state_name : ℕ → Text
state_name state = get_or state_names state (text "UNKNOWN")

-- The chain of tests gives the names of the table.
pub tcp_state_to_str-state_name : (state : ℕ) → tcp_state_to_str state ≡ state_name state
unfolding tcp_state_to_str
tcp_state_to_str-state_name zero = refl
tcp_state_to_str-state_name (suc zero) = refl
tcp_state_to_str-state_name (suc (suc zero)) = refl
tcp_state_to_str-state_name (suc (suc (suc zero))) = refl
tcp_state_to_str-state_name (suc (suc (suc (suc zero)))) = refl
tcp_state_to_str-state_name (suc (suc (suc (suc (suc zero))))) = refl
tcp_state_to_str-state_name (suc (suc (suc (suc (suc (suc zero)))))) = refl
tcp_state_to_str-state_name (suc (suc (suc (suc (suc (suc (suc zero))))))) = refl
tcp_state_to_str-state_name (suc (suc (suc (suc (suc (suc (suc (suc zero)))))))) = refl
tcp_state_to_str-state_name (suc (suc (suc (suc (suc (suc (suc (suc (suc zero))))))))) = refl
tcp_state_to_str-state_name (suc (suc (suc (suc (suc (suc (suc (suc (suc (suc zero)))))))))) = refl
tcp_state_to_str-state_name (suc (suc (suc (suc (suc (suc (suc (suc (suc (suc (suc zero))))))))))) =
    refl
tcp_state_to_str-state_name
      (suc (suc (suc (suc (suc (suc (suc (suc (suc (suc (suc (suc n)))))))))))) =
    ground arith
