-- ===== src/Base/Numbers.antt =====
-- Printing and parsing unsigned integers: `{}`, `str::parse` and `from_str_radix`.
use Prim.Native.Nat.{ℕ, zero, suc, ◌+◌, ◌-◌, ◌*◌, ◌/◌, ◌%◌, ◌≤◌, ◌<◌}
use mathlib.Core.Path.{◌≡◌, refl, ◌∙◌}
use mathlib.Core.Logic.{◌≢◌, inl, inr}
use mathlib.Core.Bool.{◌&&◌}
use mathlib.Core.List.{[], ◌∷◌}
use mathlib.Core.Option.{Option, none, some}
use native.Mathlib.Omega.{arith}
use netmon.Base.Tests.{
  ltb, leb, nat_eq, ltb→lt, ltb_false→le, nat_eq_iff, if◌then◌else◌, Bool-cases,
}
use netmon.Base.Lists.{All}
use netmon.Base.Text.{Text}

-- The digits of a number in front of a text; a bound on the number is enough fuel.
unfoldable pub digits : ℕ → ℕ → Text → Text
digits zero n rest = rest
digits (suc fuel) n rest =
    let more = digits fuel (n / 10) ((48 + n % 10) ∷ rest) in
    if ltb n 10 then (48 + n % 10) ∷ rest else more

-- `{}` of an unsigned integer
unfoldable pub decimal : ℕ → Text
unfolding digits
decimal n = digits (suc n) n []

-- `char::to_digit`
unfoldable pub to_digit : ℕ → ℕ → Option ℕ
to_digit radix c =
    let d =
      if leb 48 c && leb c 57
      then c - 48
      else if leb 97 c && leb c 122
      then c - 87
      else if leb 65 c && leb c 90
      then c - 55
      else radix in
    if ltb d radix then some d else none

-- The digits after those that made `acc`; `max` is the largest value of the type.
unfoldable pub parse_digits : ℕ → ℕ → ℕ → Text → Option ℕ
parse_digits max radix acc [] = some acc
parse_digits max radix acc (c ∷ s) = elim (to_digit radix c) [
  | none ↦ none
  | some d ↦
      let rest = parse_digits max radix (acc * radix + d) s in
      if leb (acc * radix + d) max then rest else none
]

-- The digits without a leading plus sign.
unfoldable pub unsigned_digits : Text → Text
unsigned_digits [] = []
unsigned_digits (c ∷ s) = if nat_eq c 43 then s else c ∷ s

abbrev pub parse_some : ℕ → ℕ → Text → Option ℕ
parse_some max radix [] = none
parse_some max radix (c ∷ s) = parse_digits max radix 0 (c ∷ s)

-- `T::from_str_radix(s, radix).ok()`, for the unsigned type with this largest value
unfoldable pub from_str_radix : ℕ → ℕ → Text → Option ℕ
from_str_radix max radix s = parse_some max radix (unsigned_digits s)

abbrev pub IsDigit : ℕ → Type 0
IsDigit c = (48 ≤ c) × (c ≤ 57)

digits-IsDigit : (fuel n : ℕ) (rest : Text) → All IsDigit rest → All IsDigit (digits fuel n rest)
unfolding digits
digits-IsDigit zero n rest h = h
digits-IsDigit (suc fuel) n rest h = elim (Bool-cases (ltb n 10)) [
  | inl y ↦ rw y ((omega arith, omega arith), h)
  | inr m ↦
      rw m (digits-IsDigit fuel (n / 10) ((48 + n % 10) ∷ rest) ((omega arith, omega arith), h))
]

-- Printing writes decimal digits only.
pub decimal-IsDigit : (n : ℕ) → All IsDigit (decimal n)
unfolding decimal
decimal-IsDigit n = digits-IsDigit (suc n) n [] tt

parse_digits_step :
    (max acc d : ℕ) (s : Text)
    → d < 10
    → acc * 10 + d ≤ max
    → parse_digits max 10 acc ((48 + d) ∷ s) ≡ parse_digits max 10 (acc * 10 + d) s
unfolding parse_digits to_digit
parse_digits_step max acc d s h k = ground arith

parse_digits-digits :
    (fuel max n : ℕ) (rest : Text)
    → n < fuel
    → n ≤ max
    → parse_digits max 10 0 (digits fuel n rest) ≡ parse_digits max 10 n rest
unfolding digits
parse_digits-digits zero max n rest h k = absurd (omega arith)
parse_digits-digits (suc fuel) max n rest h k = elim (Bool-cases (ltb n 10)) [
  | inl y ↦
      rw
        (
          y,
          parse_digits_step max 0 (n % 10) rest (omega arith) (omega arith),
          one_digit (ltb→lt n 10 y),
        )
        refl
  | inr m ↦
      rw
        (
          m,
          parse_digits-digits fuel max (n / 10) ((48 + n % 10) ∷ rest)
              (omega (arith, ltb_false→le n 10 m)) (omega arith),
          parse_digits_step max (n / 10) (n % 10) rest (omega arith) (omega arith),
          last_digit,
        )
        refl
]
  where
    one_digit : n < 10 → 0 * 10 + n % 10 ≡ n
    one_digit small = omega arith

    last_digit : n / 10 * 10 + n % 10 ≡ n
    last_digit = omega arith

digits-ne-nil : (fuel n c : ℕ) (rest : Text) → digits fuel n (c ∷ rest) ≢ []
unfolding digits
digits-ne-nil zero n c rest p = cc
digits-ne-nil (suc fuel) n c rest p = elim (Bool-cases (ltb n 10)) [
  | inl y ↦ cc (rw y at p)
  | inr m ↦ digits-ne-nil fuel (n / 10) (48 + n % 10) (c ∷ rest) (rw m at p)
]

decimal-ne-nil : (n : ℕ) → decimal n ≢ []
unfolding decimal digits
decimal-ne-nil n p = elim (Bool-cases (ltb n 10)) [
  | inl y ↦ cc (rw y at p)
  | inr m ↦ digits-ne-nil n (n / 10) (48 + n % 10) [] (rw m at p)
]

from_str_radix_digits :
    (max radix : ℕ) (s : Text)
    → All IsDigit s
    → s ≢ []
    → from_str_radix max radix s ≡ parse_digits max radix 0 s
unfolding from_str_radix unsigned_digits
from_str_radix_digits max radix [] d h = absurd (h refl)
from_str_radix_digits max radix (c ∷ s) d h = elim (Bool-cases (nat_eq c 43)) [
  | inl y ↦ absurd (omega (arith, (nat_eq_iff c 43).0 y, d.0.0))
  | inr m ↦ rw m refl
]

parse_digits-decimal : (max n : ℕ) → n ≤ max → parse_digits max 10 0 (decimal n) ≡ some n
unfolding decimal
parse_digits-decimal max n h =
    parse_digits-digits (suc n) max n [] (omega arith) h ∙ (unfold parse_digits in refl)

-- What is printed is parsed back, where the type can hold it.

pub parse-decimal : (max n : ℕ) → n ≤ max → from_str_radix max 10 (decimal n) ≡ some n
parse-decimal max n h =
    from_str_radix_digits max 10 (decimal n) (decimal-IsDigit n) (decimal-ne-nil n)
    ∙ parse_digits-decimal max n h
