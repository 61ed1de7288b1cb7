-- ===== src/Base/Word.antt =====
-- Unsigned 64-bit arithmetic.
use Prim.Native.Nat.{ℕ, ◌+◌, ◌%◌, ◌^◌, ◌≤◌, min}
use mathlib.Core.Path.{◌≡◌}
use native.Mathlib.Omega.{arith}

abbrev pub u64_max : ℕ
u64_max = 0xffff_ffff_ffff_ffff

-- `a.saturating_add(b)`
unfoldable pub saturating_add : ℕ → ℕ → ℕ
saturating_add a b = min (a + b) u64_max

-- `a + b` as a release build computes it; a debug build panics where this wraps.
unfoldable pub wrapping_add : ℕ → ℕ → ℕ
wrapping_add a b = (a + b) % 2 ^ 64

pub saturating_add_mono : (a b c : ℕ) → a ≤ b → saturating_add a c ≤ saturating_add b c
unfolding saturating_add
saturating_add_mono a b c h = omega arith

pub le-saturating_add : (a c : ℕ) → a ≤ u64_max → a ≤ saturating_add a c
unfolding saturating_add
le-saturating_add a c h = omega arith

pub saturating_add-le-max : (a c : ℕ) → saturating_add a c ≤ u64_max
unfolding saturating_add
saturating_add-le-max a c = omega arith

pub saturating_add_exact : (a c : ℕ) → a + c ≤ u64_max → saturating_add a c ≡ a + c
unfolding saturating_add
saturating_add_exact a c h = omega arith

pub wrapping_add_exact : (a c : ℕ) → a + c ≤ u64_max → wrapping_add a c ≡ a + c
unfolding wrapping_add
wrapping_add_exact a c h = omega arith
