-- ===== src/Base/Bits.antt =====
-- The low bits of a byte, checked by evaluation.
use Prim.Native.Nat.{ℕ, zero, suc, ◌+◌, ◌<◌, bit_and}
use mathlib.Core.Path.{◌≡◌, refl}
use mathlib.Core.Bool.{Bool, true, ◌&&◌}
use native.Mathlib.Omega.{arith}
use netmon.Base.Tests.{nat_eq}

-- Every version byte 0x40 to 0x4f below a bound has its low four bits cut out.
nibbles_cut : ℕ → Bool
nibbles_cut zero = true
nibbles_cut (suc m) = nat_eq (bit_and (64 + m) 0x0f) m && nibbles_cut m

cut_below : (bound m : ℕ) → nibbles_cut bound ≡ true → m < bound → bit_and (64 + m) 0x0f ≡ m
unfolding nibbles_cut
cut_below zero m h k = absurd (omega arith)
cut_below (suc bound) m h k = ground (arith, cut_below bound m)

sixteen_cut : nibbles_cut 16 ≡ true
unfolding nibbles_cut
sixteen_cut = refl

-- The low four bits of an IPv4 version byte.
pub low_nibble : (n : ℕ) → n < 16 → bit_and (64 + n) 0x0f ≡ n
low_nibble n h = cut_below 16 n sixteen_cut h
