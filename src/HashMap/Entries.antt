-- ===== src/HashMap/Entries.antt =====
-- A property of every entry, under the operations.
use netmon.Base.{
  ◌≡◌, refl, Bool, true, [], ◌∷◌, Option, none, some, PartialEq, ◌==◌, Bool-cases, inl, inr,
}
use netmon.HashMap.{HashMap, map_entries, retain, or_default, get, insert, upsert}

abbrev pub AllEntries : {K V : Type 0} → (K → V → Type 0) → HashMap K V → Type 0
AllEntries P [] = Unit {0}
AllEntries P ((k, v) ∷ m) = P k v × AllEntries P m

module _ {K V : Type 0} where
  pub AllEntries_mono :
      (P Q : K → V → Type 0)
      → ((k : K) (v : V) → P k v → Q k v)
      → (m : HashMap K V) → AllEntries P m
      → AllEntries Q m
  AllEntries_mono P Q f [] a = tt
  AllEntries_mono P Q f ((k, v) ∷ m) a = (f k v a.0, AllEntries_mono P Q f m a.1)

  pub AllEntries-retain :
      (P : K → V → Type 0) (p : K → V → Bool) (m : HashMap K V)
      → AllEntries P m
      → AllEntries P (retain p m)
  AllEntries-retain P p [] a = tt
  AllEntries-retain P p ((k, v) ∷ m) a = elim (Bool-cases (p k v)) [
    | inl y ↦ rw y (a.0, AllEntries-retain P p m a.1)
    | inr n ↦ rw n (AllEntries-retain P p m a.1)
  ]

  -- What is left passed the test.
  pub retain-AllEntries :
      (p : K → V → Bool) (m : HashMap K V) → AllEntries (λ k v. p k v ≡ true) (retain p m)
  retain-AllEntries p [] = tt
  retain-AllEntries p ((k, v) ∷ m) = elim (Bool-cases (p k v)) [
    | inl y ↦ rw y (y, retain-AllEntries p m)
    | inr n ↦ rw n (retain-AllEntries p m)
  ]

  pub map_entries-AllEntries :
      (P Q : K → V → Type 0) (f : K → V → V)
      → ((k : K) (v : V) → P k v → Q k (f k v))
      → (m : HashMap K V) → AllEntries P m
      → AllEntries Q (map_entries f m)
  map_entries-AllEntries P Q f h [] a = tt
  map_entries-AllEntries P Q f h ((k, v) ∷ m) a = (h k v a.0, map_entries-AllEntries P Q f h m a.1)

module _ {K V : Type 0} ⦃e : PartialEq K⦄ where
  pub insert-AllEntries :
      (P : K → V → Type 0) (k : K) (v : V) (m : HashMap K V)
      → P k v
      → AllEntries P m
      → AllEntries P (insert k v m)
  unfolding insert
  insert-AllEntries P k v [] h a = (h, tt)
  insert-AllEntries P k v ((j, w) ∷ m) h a = elim (Bool-cases (j == k)) [
    | inl y ↦ rw y (h, a.1)
    | inr n ↦ rw n (a.0, insert-AllEntries P k v m h a.1)
  ]

  pub AllEntries_get :
      (P : K → V → Type 0) (k : K) (v : V) (m : HashMap K V)
      → get k m ≡ some v
      → AllEntries P m
      → P k v
  unfolding get
  AllEntries_get P k v [] h a = cc
  AllEntries_get P k v ((j, w) ∷ m) h a = elim (Bool-cases (j == k)) [
    | inl y ↦ rw (← (e.eqb_iff j k).0 y, ← some_inj (rw y at h)) a.0
    | inr n ↦ AllEntries_get P k v m (rw n at h) a.1
  ]
    where
      some_inj : {x y : V} → some x ≡ some y → x ≡ y
      some_inj p = cc

  -- An entry is old, or is the fresh default.
  pub upsert-AllEntries :
      (P : K → V → Type 0) (k : K) (d : V) (f : V → V) (m : HashMap K V)
      → P k d
      → ((v : V) → P k v → P k (f v))
      → AllEntries P m
      → AllEntries P (upsert k d f m)
  unfolding upsert
  upsert-AllEntries P k d f m hd hf a = insert-AllEntries P k _ m (hf _ (current (get k m) refl)) a
    where
      current : (o : Option V) → get k m ≡ o → P k (or_default o d)
      current none p = hd
      current (some v) p = AllEntries_get P k v m p a

  -- The same, where the update moves the property on.
  pub upsert-AllEntries_step :
      (P Q : K → V → Type 0) (k : K) (d : V) (f : V → V) (m : HashMap K V)
      → P k d
      → ((v : V) → P k v → Q k (f v))
      → ((j : K) (v : V) → P j v → Q j v)
      → AllEntries P m
      → AllEntries Q (upsert k d f m)
  unfolding upsert
  upsert-AllEntries_step P Q k d f m hd hf up a =
      insert-AllEntries Q k _ m (hf _ (current (get k m) refl)) (AllEntries_mono P Q up m a)
    where
      current : (o : Option V) → get k m ≡ o → P k (or_default o d)
      current none p = hd
      current (some v) p = AllEntries_get P k v m p a
