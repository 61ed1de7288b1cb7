-- ===== src/Gui/Control/Shown.antt =====
-- Every process whose block the controller tracks is shown as blocked.
use netmon.Base.{
  ℕ, ◌≡◌, ◌≢◌, ◌⊎◌, subst, true, List, [], ◌∷◌, none, arith, All, All-map, Bool-cases, if_cases,
  inl, inr, nat_eq, nat_eq_iff, ℕ_eq,
}
use netmon.HashMap.{HashMap, get, insert, remove, DistinctKeys}
use netmon.HashMap.Laws.{insert-DistinctKeys, remove-DistinctKeys}
use netmon.Aggregator.Publish.{is_blocked}
use netmon.Controller.Process.{rate_limit_key}
use netmon.Gui.Control.{insert_pid, remove_pid}

-- A key of the controller's map: a process that is shown as blocked, or the key of its rate limits.
abbrev pub IsShown : List ℕ → ℕ → Type 0
IsShown blocked key = (is_blocked blocked key ≡ true) ⊎ ((pid : ℕ) × (rate_limit_key pid ≡ key))

abbrev pub AreShown : List ℕ → HashMap ℕ (List ℕ) → Type 0
AreShown blocked rules = All (λ e. IsShown blocked e.0) rules × DistinctKeys rules

All-insert :
    (P : ℕ → Type 0) (k : ℕ) (v : List ℕ) (m : HashMap ℕ (List ℕ))
    → P k
    → All (λ e. P e.0) m
    → All (λ e. P e.0) (insert k v m)
unfolding insert
All-insert P k v [] h a = (h, tt)
All-insert P k v ((j, w) ∷ m) h a =
    if_cases (All (λ e. P e.0)) (nat_eq j k) _ _ (λ y. (h, a.1))
      (λ n. (a.0, All-insert P k v m h a.1))

All-remove :
    (P : ℕ → Type 0) (k : ℕ) (m : HashMap ℕ (List ℕ))
    → All (λ e. P e.0) m
    → All (λ e. P e.0) (remove k m)
unfolding remove
All-remove P k [] a = tt
All-remove P k ((j, w) ∷ m) a =
    if_cases (All (λ e. P e.0)) (nat_eq j k) _ _ (λ y. a.1) (λ n. (a.0, All-remove P k m a.1))

pub is_blocked-insert_pid :
    (pid k : ℕ) (ps : List ℕ) → is_blocked ps k ≡ true → is_blocked (insert_pid pid ps) k ≡ true
unfolding insert_pid is_blocked
is_blocked-insert_pid pid k ps h = ground arith

pub insert_pid_self : (pid : ℕ) (ps : List ℕ) → is_blocked (insert_pid pid ps) pid ≡ true
unfolding insert_pid is_blocked
insert_pid_self pid ps =
    if_cases (λ l. is_blocked l pid ≡ true) (is_blocked ps pid) ps (pid ∷ ps) (λ y. y)
      (λ n. ground arith)

is_blocked-remove_pid :
    (pid k : ℕ) (ps : List ℕ)
    → pid ≢ k
    → is_blocked ps k ≡ true
    → is_blocked (remove_pid pid ps) k ≡ true
unfolding remove_pid is_blocked
is_blocked-remove_pid pid k [] n h = h
is_blocked-remove_pid pid k (p ∷ ps) n h = ground (arith, is_blocked-remove_pid pid k ps n)

IsShown-insert_pid : (pid k : ℕ) (ps : List ℕ) → IsShown ps k → IsShown (insert_pid pid ps) k
IsShown-insert_pid pid k ps (inl h) = inl (is_blocked-insert_pid pid k ps h)
IsShown-insert_pid pid k ps (inr r) = inr r

IsShown-remove_pid :
    (pid k : ℕ) (ps : List ℕ) → pid ≢ k → IsShown ps k → IsShown (remove_pid pid ps) k
IsShown-remove_pid pid k ps n (inl h) = inl (is_blocked-remove_pid pid k ps n h)
IsShown-remove_pid pid k ps n (inr r) = inr r

pub AreShown-remove :
    (k : ℕ) (ps : List ℕ) (m : HashMap ℕ (List ℕ)) → AreShown ps m → AreShown ps (remove k m)
AreShown-remove k ps m (a, d) = (All-remove (IsShown ps) k m a, remove-DistinctKeys k m d)

pub AreShown-insert :
    (k : ℕ) (v : List ℕ) (ps : List ℕ) (m : HashMap ℕ (List ℕ))
    → IsShown ps k
    → AreShown ps m
    → AreShown ps (insert k v m)
AreShown-insert k v ps m h (a, d) = (All-insert (IsShown ps) k v m h a, insert-DistinctKeys k v m d)

pub AreShown-insert_pid :
    (pid : ℕ) (ps : List ℕ) (m : HashMap ℕ (List ℕ))
    → AreShown ps m
    → AreShown (insert_pid pid ps) m
AreShown-insert_pid pid ps m (a, d) = (All-map (λ e. IsShown-insert_pid pid e.0 ps) m a, d)

-- The keys of a map that does not have a key are others.
absent_keys : (k : ℕ) (m : HashMap ℕ (List ℕ)) → get k m ≡ none → All (λ e. k ≢ e.0) m
unfolding get
absent_keys k [] h = tt
absent_keys k ((j, v) ∷ m) h = elim (Bool-cases (nat_eq j k)) [
  | inl y ↦ cc (rw y at h)
  | inr n ↦ ((λ e. ground arith), absent_keys k m (rw n at h))
]

All-and :
    (P Q R : ℕ → Type 0) (m : HashMap ℕ (List ℕ))
    → ((k : ℕ) → P k → Q k → R k)
    → All (λ e. P e.0) m
    → All (λ e. Q e.0) m
    → All (λ e. R e.0) m
All-and P Q R [] f a b = tt
All-and P Q R (e ∷ m) f a b = (f e.0 a.0 b.0, All-and P Q R m f a.1 b.1)

removed_keys : (k : ℕ) (m : HashMap ℕ (List ℕ)) → DistinctKeys m → All (λ e. k ≢ e.0) (remove k m)
unfolding remove
removed_keys k [] d = tt
removed_keys k ((j, v) ∷ m) d =
    if_cases (All (λ e. k ≢ e.0)) (nat_eq j k) _ _
      (λ y. absent_keys k m (subst (λ i. get i m ≡ none) ((nat_eq_iff j k).0 y) d.0))
      (λ n. ((λ e. ground arith), removed_keys k m d.1))

-- A process that is unblocked and no longer shown leaves the others shown.
pub AreShown-remove_pid :
    (pid : ℕ) (ps : List ℕ) (m : HashMap ℕ (List ℕ))
    → AreShown ps m
    → AreShown (remove_pid pid ps) (remove pid m)
AreShown-remove_pid pid ps m (a, d) = (
  All-and (λ k. pid ≢ k) (IsShown ps) (IsShown (remove_pid pid ps)) (remove pid m)
      (λ k n s. IsShown-remove_pid pid k ps n s) (removed_keys pid m d)
      (All-remove (IsShown ps) pid m a),
  remove-DistinctKeys pid m d,
)
