-- ===== src/HashMap/Sums.antt =====
-- Sums over the values of a map.
use netmon.Base.{ℕ, ◌+◌, ◌≤◌, ◌≡◌, refl, [], ◌∷◌, Option, none, some, arith, PartialEq, Bool}
use netmon.HashMap.{HashMap, map_entries, retain, or_default, get, insert, upsert}

abbrev pub sum_by : {K V : Type 0} → (V → ℕ) → HashMap K V → ℕ
sum_by g [] = 0
sum_by g ((k, v) ∷ m) = g v + sum_by g m

abbrev weight : {V : Type 0} → (V → ℕ) → Option V → ℕ
weight g none = 0
weight g (some v) = g v

module _ {K V : Type 0} (g : V → ℕ) where
  pub sum_by-retain-le : (p : K → V → Bool) (m : HashMap K V) → sum_by g (retain p m) ≤ sum_by g m
  sum_by-retain-le p [] = omega arith
  sum_by-retain-le p ((k, v) ∷ m) = ground (arith, sum_by-retain-le p m)

  pub sum_by-map_entries :
      (f : K → V → V)
      → ((k : K) (v : V) → g (f k v) ≡ g v)
      → (m : HashMap K V) → sum_by g (map_entries f m) ≡ sum_by g m
  sum_by-map_entries f h [] = refl
  sum_by-map_entries f h ((k, v) ∷ m) = omega (arith, h k v, sum_by-map_entries f h m)

module _ {K V : Type 0} ⦃e : PartialEq K⦄ (g : V → ℕ) where
  sum_by-insert :
      (k : K) (v : V) (m : HashMap K V)
      → sum_by g (insert k v m) + weight g (get k m) ≡ sum_by g m + g v
  unfolding insert get
  sum_by-insert k v [] = omega arith
  sum_by-insert k v ((j, w) ∷ m) = ground (arith, sum_by-insert k v m)

  -- The sum grows by what the updated entry grows by; a fresh entry starts at 0.
  pub sum_by-upsert :
      (k : K) (d : V) (f : V → V) (m : HashMap K V)
      → g d ≡ 0
      → sum_by g (upsert k d f m) + g (or_default (get k m) d)
        ≡ sum_by g m + g (f (or_default (get k m) d))
  unfolding upsert
  sum_by-upsert k d f m z = ground (arith, sum_by-insert k (f (or_default (get k m) d)) m)
