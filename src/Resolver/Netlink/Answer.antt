-- ===== src/Resolver/Netlink/Answer.antt =====
-- A complete dump is read back: the loop of `parse_response_messages` over a message for each socket
-- and the message that ends the dump.
use netmon.Base.{
  ℕ, ℕ_eq, zero, suc, ◌+◌, ◌-◌, ◌≤◌, ◌<◌, ◌≡◌, refl, sym, ap, ◌∙◌, true, false, List, [], ◌∷◌, ◌++◌,
  arith, length, leb, ltb, nat_eq, get_or, take, drop, get_or-drop, drop-add, drop-append,
  take-append, length-append, All, le→leb,
}
use netmon.Base.Outcome.{ret, ◌>>=◌, ◌>>◌, guard, ok_or, slice}
use mathlib.Core.List.{append_assoc}
use netmon.HashMap.{insert}
use netmon.Capture.Types.{Protocol}
use netmon.Resolver.Types.{SocketEntry}
use netmon.Resolver.Netlink.{nlmsg_align, parse_inet_diag_message, Sockets}
use netmon.Resolver.Wire.{read_struct, nlmsghdr_bytes, u16_at, u32_at}
use netmon.Resolver.Netlink.Messages.{
  handle_message, next_message, parse_messages, parse_response_messages,
}

-- A socket's message, with a payload of 72 bytes, to the port of the netlink socket.
abbrev pub diag_message : ℕ → List ℕ → List ℕ
diag_message port payload =
    nlmsghdr_bytes
      (record { nlmsg_len = 88; nlmsg_type = 20; nlmsg_flags = 2; nlmsg_seq = 1; nlmsg_pid = port })
    ++ payload

-- The message that ends the dump.
abbrev pub done_message : ℕ → List ℕ
done_message port =
    nlmsghdr_bytes
      (record { nlmsg_len = 20; nlmsg_type = 3; nlmsg_flags = 2; nlmsg_seq = 1; nlmsg_pid = port })
    ++ (0 ∷ 0 ∷ 0 ∷ 0 ∷ [])

abbrev pub dump_bytes : ℕ → List (List ℕ × SocketEntry) → List ℕ
dump_bytes port [] = done_message port
dump_bytes port ((payload, entry) ∷ rest) = diag_message port payload ++ dump_bytes port rest

-- A payload of the right size that describes this socket.
abbrev pub IsAnswer : Protocol → List ℕ × SocketEntry → Type 0
IsAnswer p (payload, entry) =
    (length payload ≡ 72) × (parse_inet_diag_message payload p ≡ ret entry)

abbrev pub insert_all : List (List ℕ × SocketEntry) → Sockets → Sockets
insert_all [] s = s
insert_all ((payload, entry) ∷ rest) s = insert_all rest (insert entry.inode entry s)

u16_at-drop : (xs : List ℕ) (i j : ℕ) → u16_at xs (i + j) ≡ u16_at (drop i xs) j
u16_at-drop xs i j = rw (get_or-drop xs i j 0, next, get_or-drop xs i (j + 1) 0) refl
  where
    next : i + j + 1 ≡ i + (j + 1)
    next = omega arith

u32_at-drop : (xs : List ℕ) (i : ℕ) → u32_at xs i ≡ u32_at (drop i xs) 0
u32_at-drop xs i = rw (get_or-drop xs i 1 0, get_or-drop xs i 2 0, get_or-drop xs i 3 0, here) refl
  where
    plus_zero : i + 0 ≡ i
    plus_zero = omega arith

    here : get_or xs i 0 ≡ get_or (drop i xs) 0 0
    here = ap (λ n. get_or xs n 0) (sym plus_zero) ∙ get_or-drop xs i 0 0

-- The message at an offset, from what stands there.
next_message_eq :
    (bytes : List ℕ) (offset len t : ℕ) (payload : List ℕ)
    → u32_at bytes offset ≡ len
    → u16_at bytes (offset + 4) ≡ t
    → 16 ≤ len
    → offset + len ≤ length bytes
    → take (len - 16) (drop (offset + 16) bytes) ≡ payload
    → next_message bytes offset ≡ ret (len, t, payload)
unfolding next_message read_struct ok_or guard slice ◌>>=◌ ◌>>◌
next_message_eq bytes offset len t payload hl ht h16 fits hp =
    rw (long, hl, ht, nonzero, le→leb (offset + len) (length bytes) fits, ordered, inside, size, hp)
      refl
  where
    long : ltb (length bytes) (offset + 16) ≡ false
    long = ground arith

    nonzero : nat_eq len 0 ≡ false
    nonzero = ground arith

    ordered : leb (offset + 16) (offset + 16 + (len - 16)) ≡ true
    ordered = ground arith

    inside : leb (offset + 16 + (len - 16)) (length bytes) ≡ true
    inside = ground arith

    size : offset + 16 + (len - 16) - (offset + 16) ≡ len - 16
    size = omega arith

module _ (pre payload tail : List ℕ) (port : ℕ) where
  next_message-diag :
      length payload ≡ 72
      → next_message (pre ++ (diag_message port payload ++ tail)) (length pre)
        ≡ ret (88, 20, payload)
  next_message-diag h =
      next_message_eq (pre ++ (diag_message port payload ++ tail)) (length pre) 88 20 payload
        (rw (u32_at-drop bytes (length pre), drop-append pre (diag_message port payload ++ tail))
          refl)
        (rw (u16_at-drop bytes (length pre) 4, drop-append pre (diag_message port payload ++ tail))
          refl)
        (omega arith)
        (omega (
          arith,
          length-append pre (diag_message port payload ++ tail),
          length-append payload tail,
        ))
        (rw
          (
            drop-add (length pre) 16 bytes,
            drop-append pre (diag_message port payload ++ tail),
            sym h,
          )
          (take-append payload tail))
    where
      bytes : List ℕ
      bytes = pre ++ (diag_message port payload ++ tail)

next_message-done :
    (pre : List ℕ) (port : ℕ)
    → next_message (pre ++ done_message port) (length pre) ≡ ret (20, 3, 0 ∷ 0 ∷ 0 ∷ 0 ∷ [])
next_message-done pre port =
    next_message_eq (pre ++ done_message port) (length pre) 20 3 _
      (rw (u32_at-drop (pre ++ done_message port) (length pre), drop-append pre (done_message port))
        refl)
      (rw
        (u16_at-drop (pre ++ done_message port) (length pre) 4, drop-append pre (done_message port))
        refl)
      (omega arith) (omega (arith, length-append pre (done_message port)))
      (rw (drop-add (length pre) 16 (pre ++ done_message port), drop-append pre (done_message port))
        refl)

parse_messages-dump :
    (fuel : ℕ) (pre : List ℕ) (port : ℕ) (answers : List (List ℕ × SocketEntry)) (p : Protocol)
    (s : Sockets)
    → All (IsAnswer p) answers
    → length answers < fuel
    → parse_messages fuel (pre ++ dump_bytes port answers) (length pre) p s
      ≡ ret (true, insert_all answers s)
unfolding parse_messages handle_message nlmsg_align ◌>>=◌
parse_messages-dump zero pre port answers p s h k = absurd (omega arith)
parse_messages-dump (suc fuel) pre port [] p s h k = rw (fits, next_message-done pre port) refl
  where
    fits : leb (length pre + 16) (length (pre ++ done_message port)) ≡ true
    fits = ground (arith, length-append pre (done_message port))
parse_messages-dump (suc fuel) pre port ((payload, entry) ∷ rest) p s h k =
    rw (fits, next_message-diag pre payload (dump_bytes port rest) port h.0.0, h.0.1, after, assoc)
      (parse_messages-dump fuel (pre ++ diag_message port payload) port rest p
        (insert entry.inode entry s) h.1 (omega arith))
  where
    fits :
        leb (length pre + 16) (length (pre ++ (diag_message port payload ++ dump_bytes port rest)))
        ≡ true
    fits = ground (arith, length-append pre (diag_message port payload ++ dump_bytes port rest))

    after : length pre + nlmsg_align 88 ≡ length (pre ++ diag_message port payload)
    after = omega (arith, length-append pre (diag_message port payload), h.0.0)

    assoc :
        pre ++ (diag_message port payload ++ dump_bytes port rest)
        ≡ (pre ++ diag_message port payload) ++ dump_bytes port rest
    assoc = sym (append_assoc pre (diag_message port payload) (dump_bytes port rest))

dump_bytes-length :
    (port : ℕ) (answers : List (List ℕ × SocketEntry))
    → length answers ≤ length (dump_bytes port answers)
dump_bytes-length port [] = omega arith
dump_bytes-length port ((payload, entry) ∷ rest) =
    omega (arith, length-append payload (dump_bytes port rest), dump_bytes-length port rest)

-- A datagram with a message for each of these sockets and the end of the dump adds just these
-- sockets, in their order, and reports the end.
pub parse_response_messages-dump :
    (port : ℕ) (answers : List (List ℕ × SocketEntry)) (p : Protocol) (s : Sockets)
    → All (IsAnswer p) answers
    → parse_response_messages (dump_bytes port answers) p s ≡ ret (true, insert_all answers s)
unfolding parse_response_messages
parse_response_messages-dump port answers p s h =
    parse_messages-dump (suc (length (dump_bytes port answers))) [] port answers p s h
      (omega (arith, dump_bytes-length port answers))
