-- ===== src/HashMap/Laws.antt =====
-- Laws of the maps.
use netmon.Base.{
  ◌≡◌, refl, sym, ◌≢◌, Bool, true, false, [], ◌∷◌, none, some, arith, PartialEq, ◌==◌,
  if◌then◌else◌, Bool-cases, inl, inr, eqb_ne, eqb_refl,
}
use netmon.HashMap.{
  HashMap, map_entries, retain, or_default, get, contains_key, insert, remove, upsert, DistinctKeys,
}

module _ {K V : Type 0} ⦃e : PartialEq K⦄ where
  pub get-insert :
      (k j : K) (v : V) (m : HashMap K V)
      → get j (insert k v m) ≡ (if k == j then some v else get j m)
  unfolding get insert
  get-insert k j v [] = refl
  get-insert k j v ((i, w) ∷ m) =
      ground (arith, e.eqb_iff k j, e.eqb_iff i k, e.eqb_iff i j, get-insert k j v m)

  pub get-insert_self : (k : K) (v : V) (m : HashMap K V) → get k (insert k v m) ≡ some v
  get-insert_self k v m = rw (get-insert k k v m, eqb_refl e k)

  pub get-insert_ne : (k j : K) (v : V) (m : HashMap K V) → k ≢ j → get j (insert k v m) ≡ get j m
  get-insert_ne k j v m h = rw (get-insert k j v m, eqb_ne e k j h)

  pub get-upsert :
      (k j : K) (d : V) (f : V → V) (m : HashMap K V)
      → get j (upsert k d f m) ≡ (if k == j then some (f (or_default (get k m) d)) else get j m)
  unfolding upsert
  get-upsert k j d f m = get-insert k j _ m

  pub contains_key-get : (k : K) (m : HashMap K V) → contains_key k m ≡ false → get k m ≡ none
  unfolding get contains_key
  contains_key-get k [] h = refl
  contains_key-get k ((j, v) ∷ m) h = ground (arith, contains_key-get k m)

  pub get-contains_key :
      (k : K) (v : V) (m : HashMap K V) → get k m ≡ some v → contains_key k m ≡ true
  unfolding get contains_key
  get-contains_key k v [] h = cc
  get-contains_key k v ((j, w) ∷ m) h = ground (arith, get-contains_key k v m)

  get_absent-insert :
      (k j : K) (v : V) (m : HashMap K V)
      → (k == j) ≡ false
      → get j m ≡ none
      → get j (insert k v m) ≡ none
  get_absent-insert k j v m h n = rw (get-insert k j v m, h) n

  pub insert-DistinctKeys :
      (k : K) (v : V) (m : HashMap K V) → DistinctKeys m → DistinctKeys (insert k v m)
  unfolding insert get
  insert-DistinctKeys k v [] d = (refl, tt)
  insert-DistinctKeys k v ((j, w) ∷ m) d = elim (Bool-cases (j == k)) [
    | inl y ↦ rw y (rw (sym ((e.eqb_iff j k).0 y)) d.0, d.1)
    | inr n ↦ rw n (
      get_absent-insert k j v m (ground (arith, e.eqb_iff k j, e.eqb_iff j k)) d.0,
      insert-DistinctKeys k v m d.1,
    )
  ]

  pub upsert-DistinctKeys :
      (k : K) (b : V) (f : V → V) (m : HashMap K V) → DistinctKeys m → DistinctKeys (upsert k b f m)
  unfolding upsert
  upsert-DistinctKeys k b f m d = insert-DistinctKeys k _ m d

  get_absent-retain :
      (p : K → V → Bool) (k : K) (m : HashMap K V) → get k m ≡ none → get k (retain p m) ≡ none
  unfolding get
  get_absent-retain p k [] h = refl
  get_absent-retain p k ((j, v) ∷ m) h = ground (arith, get_absent-retain p k m)

  pub retain-DistinctKeys :
      (p : K → V → Bool) (m : HashMap K V) → DistinctKeys m → DistinctKeys (retain p m)
  retain-DistinctKeys p [] d = tt
  retain-DistinctKeys p ((k, v) ∷ m) d =
      ground (arith, retain-DistinctKeys p m d.1, get_absent-retain p k m d.0)

  -- What `retain` keeps, key by key.
  pub get-retain :
      (p : K → V → Bool) (k : K) (v : V) (m : HashMap K V)
      → DistinctKeys m
      → get k m ≡ some v
      → get k (retain p m) ≡ (if p k v then some v else none)
  unfolding get
  get-retain p k v [] d h = cc
  get-retain p k v ((j, w) ∷ m) d h =
      ground (arith, e.eqb_iff j k, get-retain p k v m d.1, get_absent-retain p k m)

  pub get-retain-none :
      (p : K → V → Bool) (k : K) (m : HashMap K V) → get k m ≡ none → get k (retain p m) ≡ none
  get-retain-none p k m h = get_absent-retain p k m h

  pub get-map_entries-none :
      (f : K → V → V) (k : K) (m : HashMap K V) → get k m ≡ none → get k (map_entries f m) ≡ none
  unfolding get
  get-map_entries-none f k [] h = refl
  get-map_entries-none f k ((j, v) ∷ m) h = ground (arith, get-map_entries-none f k m)

  pub get-map_entries :
      (f : K → V → V) (k : K) (v : V) (m : HashMap K V)
      → get k m ≡ some v
      → get k (map_entries f m) ≡ some (f k v)
  unfolding get
  get-map_entries f k v [] h = cc
  get-map_entries f k v ((j, w) ∷ m) h = ground (arith, e.eqb_iff j k, get-map_entries f k v m)

  pub map_entries-DistinctKeys :
      (f : K → V → V) (m : HashMap K V) → DistinctKeys m → DistinctKeys (map_entries f m)
  map_entries-DistinctKeys f [] d = tt
  map_entries-DistinctKeys f ((k, v) ∷ m) d =
      (get-map_entries-none f k m d.0, map_entries-DistinctKeys f m d.1)

  get_absent-remove : (k j : K) (m : HashMap K V) → get j m ≡ none → get j (remove k m) ≡ none
  unfolding get remove
  get_absent-remove k j [] h = refl
  get_absent-remove k j ((i, v) ∷ m) h = ground (arith, get_absent-remove k j m)

  pub remove-DistinctKeys : (k : K) (m : HashMap K V) → DistinctKeys m → DistinctKeys (remove k m)
  unfolding remove
  remove-DistinctKeys k [] d = tt
  remove-DistinctKeys k ((j, v) ∷ m) d =
      ground (arith, remove-DistinctKeys k m d.1, get_absent-remove k j m d.0)

  pub get-remove_ne : (k j : K) (m : HashMap K V) → k ≢ j → get j (remove k m) ≡ get j m
  unfolding get remove
  get-remove_ne k j [] h = refl
  get-remove_ne k j ((i, v) ∷ m) h =
      ground (arith, e.eqb_iff i k, e.eqb_iff i j, get-remove_ne k j m h)

  pub get-remove :
      (k j : K) (m : HashMap K V)
      → DistinctKeys m
      → get j (remove k m) ≡ (if k == j then none else get j m)
  unfolding get remove
  get-remove k j [] d = ground arith
  get-remove k j ((i, v) ∷ m) d =
      ground (arith, e.eqb_iff k j, e.eqb_iff i k, e.eqb_iff i j, get-remove k j m d.1, d.0)
