-- ===== src/Resolver/Netlink/Dump.antt =====
-- What the loop over a datagram's messages makes of any bytes, and of a well-formed dump.
use netmon.Base.{
  ℕ, zero, suc, ◌+◌, ◌-◌, ◌≤◌, ◌<◌, ◌≡◌, ◌≢◌, refl, Bool, List, Option, none, some, arith, length,
  leb, nat_eq, not,
}
use netmon.Base.Outcome.{
  panicked, ok_or, Ensures, gives, fails, Ensures-bind, Ensures-guard, Ensures-if, Ensures-slice,
  Ensures-ne-panicked,
}
use netmon.Capture.Types.{Protocol}
use netmon.Resolver.Types.{SocketEntry}
use netmon.Resolver.Netlink.{nlmsg_align, parse_kernel_error, parse_inet_diag_message, Sockets}
use netmon.Resolver.Wire.{parse_error, NetlinkError}
use netmon.Resolver.Netlink.Messages.{
  handle_message, next_message, parse_messages, parse_response_messages,
}

Ensures-ok_or :
    {A : Type 0} (o : Option A) (e : NetlinkError) → Ensures (λ (a : A). o ≡ some a) (ok_or o e)
unfolding ok_or
Ensures-ok_or none e = fails e
Ensures-ok_or (some a) e = gives a refl

parse_kernel_error-Ensures :
    (payload : List ℕ) → Ensures (λ (n : ℕ). Unit {0}) (parse_kernel_error payload)
unfolding parse_kernel_error
parse_kernel_error-Ensures payload = Ensures-bind (Ensures-ok_or _ _) (λ e h. gives _ tt)

parse_inet_diag_message-Ensures :
    (payload : List ℕ) (p : Protocol)
    → Ensures (λ (s : SocketEntry). s.protocol ≡ p) (parse_inet_diag_message payload p)
unfolding parse_inet_diag_message
parse_inet_diag_message-Ensures payload p = Ensures-bind (Ensures-ok_or _ _) (λ m h.
    Ensures-bind (Ensures-ok_or _ _)
      (λ l hl. Ensures-bind (Ensures-ok_or _ _) (λ r hr. gives _ refl)))

handle_message-Ensures :
    (t : ℕ) (payload : List ℕ) (p : Protocol) (s : Sockets)
    → Ensures (λ (r : Bool × Sockets). Unit {0}) (handle_message t payload p s)
unfolding handle_message
handle_message-Ensures t payload p s =
    Ensures-if (nat_eq t 3) (λ d. gives _ tt)
      (λ d.
        Ensures-if (nat_eq t 2)
          (λ e. Ensures-bind (parse_kernel_error-Ensures payload) (λ n _. fails _))
          (λ e.
            Ensures-if (nat_eq t 20)
              (λ q. Ensures-bind (parse_inet_diag_message-Ensures payload p) (λ n _. gives _ tt))
              (λ q. gives _ tt)))

next_message-Ensures :
    (bytes : List ℕ) (offset : ℕ)
    → offset + 16 ≤ length bytes
    → Ensures
        (λ (m : ℕ × ℕ × List ℕ). (0 < m.0) × (offset + m.0 ≤ length bytes))
        (next_message bytes offset)
unfolding next_message
next_message-Ensures bytes offset h = Ensures-bind (Ensures-ok_or _ _) (λ header _.
    Ensures-guard (not (nat_eq header.nlmsg_len 0)) parse_error (λ nonzero.
      Ensures-guard (leb (offset + header.nlmsg_len) (length bytes)) parse_error (λ fits.
        Ensures-bind
          (Ensures-slice bytes (offset + 16) (offset + 16 + (header.nlmsg_len - 16)) (omega arith)
            (ground arith))
          (λ payload _. gives _ (ground arith, ground arith)))))

nlmsg_align-ge : (n : ℕ) → 0 < n → 4 ≤ nlmsg_align n
unfolding nlmsg_align
nlmsg_align-ge n h = omega arith

parse_messages-Ensures :
    (fuel : ℕ) (bytes : List ℕ) (offset : ℕ) (p : Protocol) (s : Sockets)
    → length bytes < fuel + offset + 16
    → Ensures (λ (r : Bool × Sockets). Unit {0}) (parse_messages (suc fuel) bytes offset p s)
unfolding parse_messages
parse_messages-Ensures zero bytes offset p s h =
    Ensures-if (leb (offset + 16) (length bytes)) (λ fits. absurd (ground arith))
      (λ past. gives _ tt)
parse_messages-Ensures (suc fuel) bytes offset p s h =
    Ensures-if (leb (offset + 16) (length bytes))
      (λ fits. Ensures-bind (next_message-Ensures bytes offset (ground arith)) (λ m hm.
        Ensures-bind (handle_message-Ensures m.1 m.2 p s) (λ handled _.
          Ensures-if handled.0 (λ d. gives _ tt)
            (λ d.
              parse_messages-Ensures fuel bytes (offset + nlmsg_align m.0) p handled.1
                (omega (arith, nlmsg_align-ge m.0 hm.0))))))
      (λ past. gives _ tt)

-- Whatever bytes arrive, the parser of a datagram neither reads past them nor runs for more rounds
-- than there are bytes: it returns a value or an error.
pub parse_response_messages-ne-panicked :
    (bytes : List ℕ) (p : Protocol) (s : Sockets) → parse_response_messages bytes p s ≢ panicked
unfolding parse_response_messages
parse_response_messages-ne-panicked bytes p s =
    Ensures-ne-panicked _ (parse_messages-Ensures (length bytes) bytes 0 p s (omega arith))
