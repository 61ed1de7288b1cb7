-- ===== src/Aggregator/History/Sums.antt =====
-- Sums over a history and the pointwise order of histories.
use netmon.Base.{ℕ, zero, suc, ◌+◌, ◌≤◌, List, [], ◌∷◌, arith, take}
use netmon.Aggregator.History.Shift.{pushed}

abbrev pub sum : List ℕ → ℕ
sum [] = 0
sum (x ∷ xs) = x + sum xs

pub sum-take-le : (n : ℕ) (h : List ℕ) → sum (take n h) ≤ sum h
sum-take-le zero h = omega arith
sum-take-le (suc n) [] = omega arith
sum-take-le (suc n) (x ∷ h) = omega (arith, sum-take-le n h)

pub sum-pushed-le : (current : ℕ) (h : List ℕ) → sum (pushed current h) ≤ current + sum h
sum-pushed-le current h = omega (arith, sum-take-le 299 h)

-- One history lies below another, slot by slot.
abbrev pub AllLe : List ℕ → List ℕ → Type 0
AllLe [] ys = Unit {0}
AllLe (x ∷ xs) [] = ⊥
AllLe (x ∷ xs) (y ∷ ys) = (x ≤ y) × AllLe xs ys

AllLe-take : (n : ℕ) (xs ys : List ℕ) → AllLe xs ys → AllLe (take n xs) (take n ys)
AllLe-take zero xs ys h = tt
AllLe-take (suc n) [] ys h = tt
AllLe-take (suc n) (x ∷ xs) [] h = absurd h
AllLe-take (suc n) (x ∷ xs) (y ∷ ys) h = (h.0, AllLe-take n xs ys h.1)

pub AllLe-pushed :
    (a b : ℕ) (xs ys : List ℕ) → a ≤ b → AllLe xs ys → AllLe (pushed a xs) (pushed b ys)
AllLe-pushed a b xs ys h k = (h, AllLe-take 299 xs ys k)

pub AllLe-refl : (xs : List ℕ) → AllLe xs xs
AllLe-refl [] = tt
AllLe-refl (x ∷ xs) = (omega arith, AllLe-refl xs)
