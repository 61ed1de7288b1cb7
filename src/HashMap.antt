-- ===== src/HashMap.antt =====
-- `std::collections::HashMap` as an association list. A map iterates in the order of the list;
-- std leaves that order open, and the theorems do not depend on it. Each key stands once
-- (`DistinctKeys`), which every operation keeps.
pub mod Laws
pub mod Entries
pub mod Sums
use netmon.Base.{
  ℕ, ◌≡◌, Bool, true, false, List, [], ◌∷◌, map, Option, none, some, PartialEq, ◌==◌, if◌then◌else◌,
}

abbrev pub HashMap : Type 0 → Type 0 → Type 0
HashMap K V = List (K × V)

abbrev pub values : {K V : Type 0} → HashMap K V → List V
values = map (λ e. e.1)

abbrev pub keys : {K V : Type 0} → HashMap K V → List K
keys = map (λ e. e.0)

-- `for v in map.values_mut() { *v = f(*v) }`, with the key at hand
abbrev pub map_entries : {K V : Type 0} → (K → V → V) → HashMap K V → HashMap K V
map_entries f [] = []
map_entries f ((k, v) ∷ m) = (k, f k v) ∷ map_entries f m

abbrev pub retain : {K V : Type 0} → (K → V → Bool) → HashMap K V → HashMap K V
retain p [] = []
retain p ((k, v) ∷ m) = let rest = retain p m in if p k v then (k, v) ∷ rest else rest

abbrev pub or_default : {V : Type 0} → Option V → V → V
or_default none d = d
or_default (some v) d = v

module _ {K V : Type 0} ⦃e : PartialEq K⦄ where
  unfoldable pub get : K → HashMap K V → Option V
  get k [] = none
  get k ((j, v) ∷ m) = if j == k then some v else get k m

  unfoldable pub contains_key : K → HashMap K V → Bool
  contains_key k [] = false
  contains_key k ((j, v) ∷ m) = if j == k then true else contains_key k m

  unfoldable pub insert : K → V → HashMap K V → HashMap K V
  insert k v [] = (k, v) ∷ []
  insert k v ((j, w) ∷ m) = if j == k then (k, v) ∷ m else (j, w) ∷ insert k v m

  unfoldable pub remove : K → HashMap K V → HashMap K V
  remove k [] = []
  remove k ((j, v) ∷ m) = if j == k then m else (j, v) ∷ remove k m

  -- `let entry = map.entry(k).or_insert(d); *entry = f(*entry);`
  unfoldable pub upsert : K → V → (V → V) → HashMap K V → HashMap K V
  upsert k d f m = insert k (f (or_default (get k m) d)) m

  abbrev pub DistinctKeys : HashMap K V → Type 0
  DistinctKeys [] = Unit {0}
  DistinctKeys ((k, v) ∷ m) = (get k m ≡ none) × DistinctKeys m
