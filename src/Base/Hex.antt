-- ===== src/Base/Hex.antt =====
-- Hexadecimal numbers of a fixed width, as `{:08X}` prints them and `from_str_radix` reads them.
use Prim.Native.Nat.{ℕ, zero, suc, ◌+◌, ◌*◌, ◌/◌, ◌%◌, ◌≤◌, ◌<◌, ◌^◌}
use mathlib.Core.Path.{◌≡◌, refl, ap, sym, ◌∙◌}
use mathlib.Core.Logic.{◌≢◌, inl, inr}
use mathlib.Core.List.{[], ◌∷◌}
use mathlib.Core.Option.{some}
use native.Mathlib.Omega.{arith}
use netmon.Base.Tests.{ltb, nat_eq, nat_eq_iff, if◌then◌else◌, Bool-cases}
use netmon.Base.Lists.{All, length}
use netmon.Base.Text.{Text}
use netmon.Base.Numbers.{to_digit, parse_digits, unsigned_digits, from_str_radix}

-- `{:X}` of a digit, and a number at a fixed width in front of a text.
unfoldable pub hex_char : ℕ → ℕ
hex_char d = if ltb d 10 then 48 + d else 55 + d

unfoldable pub hex : ℕ → ℕ → Text → Text
unfolding hex_char
hex zero n rest = rest
hex (suc w) n rest = hex w (n / 16) (hex_char (n % 16) ∷ rest)

abbrev HasDigits : ℕ → ℕ → Type 0
HasDigits zero n = n ≡ 0
HasDigits (suc w) n = HasDigits w (n / 16)

parse_hex_step :
    (max acc d : ℕ) (s : Text)
    → d < 16
    → acc * 16 + d ≤ max
    → parse_digits max 16 acc (hex_char d ∷ s) ≡ parse_digits max 16 (acc * 16 + d) s
unfolding parse_digits to_digit hex_char
parse_hex_step max acc d s h k = ground arith

parse_digits-hex :
    (w max n : ℕ) (rest : Text)
    → HasDigits w n
    → n ≤ max
    → parse_digits max 16 0 (hex w n rest) ≡ parse_digits max 16 n rest
unfolding hex
parse_digits-hex zero max n rest h k = ap (λ m. parse_digits max 16 m rest) (sym h)
parse_digits-hex (suc w) max n rest h k =
    parse_digits-hex w max (n / 16) (hex_char (n % 16) ∷ rest) h (omega arith)
    ∙ parse_hex_step max (n / 16) (n % 16) rest (omega arith) (omega arith)
    ∙ ap (λ m. parse_digits max 16 m rest) last_digit
  where
    last_digit : n / 16 * 16 + n % 16 ≡ n
    last_digit = omega arith

All-hex :
    (P : ℕ → Type 0)
    → ((d : ℕ) → P (hex_char d))
    → (w n : ℕ) (rest : Text) → All P rest
    → All P (hex w n rest)
unfolding hex
All-hex P f zero n rest h = h
All-hex P f (suc w) n rest h = All-hex P f w (n / 16) _ (f (n % 16), h)

pub hex-ne : (c : ℕ) → ((d : ℕ) → hex_char d ≢ c) → (w n : ℕ) → All (λ x. x ≢ c) (hex w n [])
hex-ne c f w n = All-hex (λ x. x ≢ c) f w n [] tt

pub hex_char-ne-colon : (d : ℕ) → hex_char d ≢ 58
unfolding hex_char
hex_char-ne-colon d = ground arith

hex_char-ne-plus : (d : ℕ) → hex_char d ≢ 43
unfolding hex_char
hex_char-ne-plus d = ground arith

pub length-hex : (w n : ℕ) (rest : Text) → length (hex w n rest) ≡ w + length rest
unfolding hex
length-hex zero n rest = omega arith
length-hex (suc w) n rest = omega (arith, length-hex w (n / 16) (hex_char (n % 16) ∷ rest))

from_str_radix_unsigned :
    (max radix : ℕ) (s : Text)
    → All (λ x. x ≢ 43) s
    → 0 < length s
    → from_str_radix max radix s ≡ parse_digits max radix 0 s
unfolding from_str_radix unsigned_digits
from_str_radix_unsigned max radix [] d h = absurd (omega arith)
from_str_radix_unsigned max radix (c ∷ s) d h = elim (Bool-cases (nat_eq c 43)) [
  | inl y ↦ absurd (d.0 ((nat_eq_iff c 43).0 y))
  | inr m ↦ rw m refl
]

from_str_radix-hex :
    (w max n : ℕ) → 0 < w → HasDigits w n → n ≤ max → from_str_radix max 16 (hex w n []) ≡ some n
from_str_radix-hex w max n h d k =
    from_str_radix_unsigned max 16 (hex w n []) (hex-ne 43 hex_char-ne-plus w n)
      (omega (arith, length-hex w n []))
    ∙ parse_digits-hex w max n [] d k
    ∙ (unfold parse_digits in refl)

-- Hexadecimal numbers of full width are parsed back.
pub from_str_radix-hex8 : (n : ℕ) → n < 2 ^ 32 → from_str_radix 0xffff_ffff 16 (hex 8 n []) ≡ some n
from_str_radix-hex8 n h =
    from_str_radix-hex 8 0xffff_ffff n (omega arith) (omega arith) (omega arith)

pub from_str_radix-hex4 : (n : ℕ) → n < 2 ^ 16 → from_str_radix 0xffff 16 (hex 4 n []) ≡ some n
from_str_radix-hex4 n h = from_str_radix-hex 4 0xffff n (omega arith) (omega arith) (omega arith)
