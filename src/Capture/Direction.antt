-- ===== src/Capture/Direction.antt =====
-- `classify_direction` against membership in the list of local addresses.
use mathlib.Core.List.{Mem, mem-cons, not-mem-nil}
use mathlib.Core.Logic.Or
use mathlib.Core.Bool.{Bool-discrete}
use mathlib.Core.HLevel.{hedberg}
use netmon.Base.{◌≡◌, refl, ◌↔◌, true, List, [], ◌∷◌, arith, Bool-cases, inl, inr, ◌==◌, eqb_refl}
use netmon.Net.{IpAddr, ip_eq}
use netmon.Capture.Types.{rx}
use netmon.Capture.Packet.{contains_ip, classify_direction}

contains_ip-Mem : (ips : List IpAddr) (a : IpAddr) → contains_ip ips a ≡ true → Mem a ips
unfolding contains_ip
contains_ip-Mem [] a h = cc
contains_ip-Mem (x ∷ ips) a h = elim (Bool-cases (a == x)) [
  | inl y ↦ mem-cons.1 (Or.inl ((ip_eq.eqb_iff a x).0 y))
  | inr n ↦ mem-cons.1 (Or.inr (contains_ip-Mem ips a (rw n at h)))
]

Mem-contains_ip : (ips : List IpAddr) (a : IpAddr) → Mem a ips → contains_ip ips a ≡ true
unfolding contains_ip
Mem-contains_ip [] a m = absurd (not-mem-nil m)
Mem-contains_ip (x ∷ ips) a m =
    Or.elim (hedberg Bool-discrete _ _) (mem-cons.0 m) (λ e. rw (← e, eqb_refl ip_eq a))
      (λ t. ground (arith, Mem-contains_ip ips a t))

-- Traffic counts as received exactly when its destination is a local address and its source is
-- not; everything else counts as sent.
pub classify_direction-rx_iff :
    (ips : List IpAddr) (src dst : IpAddr)
    → (classify_direction ips src dst ≡ rx) ↔ (¬ Mem src ips × Mem dst ips)
unfolding classify_direction
classify_direction-rx_iff ips src dst = elim (Bool-cases (contains_ip ips src)) [
  | inl s ↦ rw s ((λ e. cc), (λ h. absurd (h.0 (contains_ip-Mem ips src s))))
  | inr s ↦ elim (Bool-cases (contains_ip ips dst)) [
    | inl d ↦
        rw (s, d)
          (
            (λ e. ((λ m. cc (s, Mem-contains_ip ips src m)), contains_ip-Mem ips dst d)),
            (λ h. refl),
          )
    | inr d ↦ rw (s, d) ((λ e. cc), (λ h. cc (d, Mem-contains_ip ips dst h.1)))
  ]
]
