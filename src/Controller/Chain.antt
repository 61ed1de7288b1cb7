-- ===== src/Controller/Chain.antt =====
-- Deleting rules from the chain that crates/controller/src/lib.rs keeps rules in.
use netmon.Base.{
  ℕ, ◌≡◌, refl, sym, subst, Bool, true, false, List, [], ◌∷◌, ◌++◌, arith, if◌then◌else◌,
  Bool-cases, inl, inr, nat_eq, nat_eq_iff,
}
use netmon.Base.Text.{Text}
use netmon.Controller.Handles.{contains, contains_longer}
use netmon.Controller.Nft.{Rule, rule_line, without, without_all, marked, has_handle}

abbrev pub elem : ℕ → List ℕ → Bool
elem x [] = false
elem x (y ∷ ys) = if nat_eq x y then true else elem x ys

-- Every rule with the marker has its handle in the list.
abbrev pub Covers : Text → List ℕ → List Rule → Type 0
Covers marker hs [] = Unit {0}
Covers marker hs (r ∷ rs) =
    (contains marker (rule_line r) ≡ true → elem r.handle hs ≡ true) × Covers marker hs rs

Covers-nil : (marker : Text) (rs : List Rule) → Covers marker [] rs → marked marker rs ≡ []
Covers-nil marker [] h = refl
Covers-nil marker (r ∷ rs) h = ground (arith, h.0, Covers-nil marker rs h.1)

Covers-without :
    (marker : Text) (h : ℕ) (hs : List ℕ) (rs : List Rule)
    → Covers marker (h ∷ hs) rs
    → Covers marker hs (without h rs)
Covers-without marker h hs [] c = tt
Covers-without marker h hs (r ∷ rs) c = elim (Bool-cases (nat_eq r.handle h)) [
  | inl y ↦ rw y (Covers-without marker h hs rs c.1)
  | inr n ↦ rw n ((λ m. rw n at (c.0 m)), Covers-without marker h hs rs c.1)
]

Covers-cons :
    (marker : Text) (h : ℕ) (hs : List ℕ) (rs : List Rule)
    → Covers marker hs rs
    → Covers marker (h ∷ hs) rs
Covers-cons marker h hs [] c = tt
Covers-cons marker h hs (r ∷ rs) c = ((λ m. ground (arith, c.0 m)), Covers-cons marker h hs rs c.1)

Covers-marked : (marker : Text) (rs : List Rule) → Covers marker (marked marker rs) rs
Covers-marked marker [] = tt
Covers-marked marker (r ∷ rs) = elim (Bool-cases (contains marker (rule_line r))) [
  | inl y ↦
      subst (λ hs. Covers marker hs (r ∷ rs)) (sym (found y))
        ((λ m. ground arith), Covers-cons marker r.handle _ rs (Covers-marked marker rs))
  | inr n ↦
      subst (λ hs. Covers marker hs (r ∷ rs)) (sym (passed n)) ((λ m. cc), Covers-marked marker rs)
]
  where
    found :
        contains marker (rule_line r) ≡ true → marked marker (r ∷ rs) ≡ r.handle ∷ marked marker rs
    found y = rw y refl

    passed : contains marker (rule_line r) ≡ false → marked marker (r ∷ rs) ≡ marked marker rs
    passed n = rw n refl

Covers-without_all :
    (marker : Text) (hs : List ℕ) (rs : List Rule)
    → Covers marker hs rs
    → marked marker (without_all hs rs) ≡ []
Covers-without_all marker [] rs c = Covers-nil marker rs c
Covers-without_all marker (h ∷ hs) rs c =
    Covers-without_all marker hs (without h rs) (Covers-without marker h hs rs c)

-- Deleting the marked rules leaves none.
pub marked-without_all :
    (marker : Text) (rs : List Rule) → marked marker (without_all (marked marker rs) rs) ≡ []
marked-without_all marker rs =
    Covers-without_all marker (marked marker rs) rs (Covers-marked marker rs)

has_handle-without :
    (x h : ℕ) (rs : List Rule) → has_handle x rs ≡ false → has_handle x (without h rs) ≡ false
has_handle-without x h [] n = refl
has_handle-without x h (r ∷ rs) n = ground (arith, has_handle-without x h rs)

has_handle-without_self : (x : ℕ) (rs : List Rule) → has_handle x (without x rs) ≡ false
has_handle-without_self x [] = refl
has_handle-without_self x (r ∷ rs) = ground (arith, has_handle-without_self x rs)

without_all-absent :
    (x : ℕ) (hs : List ℕ) (rs : List Rule)
    → has_handle x rs ≡ false
    → has_handle x (without_all hs rs) ≡ false
without_all-absent x [] rs n = n
without_all-absent x (h ∷ hs) rs n =
    without_all-absent x hs (without h rs) (has_handle-without x h rs n)

-- A handle that is deleted is in the chain no more.
pub has_handle-without_all :
    (x : ℕ) (hs : List ℕ) (rs : List Rule)
    → elem x hs ≡ true
    → has_handle x (without_all hs rs) ≡ false
has_handle-without_all x [] rs m = cc m
has_handle-without_all x (h ∷ hs) rs m = elim (Bool-cases (nat_eq x h)) [
  | inl y ↦ without_all-absent x hs (without h rs) (
      subst (λ k. has_handle x (without k rs) ≡ false) ((nat_eq_iff x h).0 y)
        (has_handle-without_self x rs))
  | inr n ↦ has_handle-without_all x hs (without h rs) (rw n at m)
]

-- A rule with the longer marker has the shorter one.
pub elem-marked :
    (x : ℕ) (p q : Text) (rs : List Rule)
    → elem x (marked (p ++ q) rs) ≡ true
    → elem x (marked p rs) ≡ true
elem-marked x p q [] m = m
elem-marked x p q (r ∷ rs) m =
    ground (arith, contains_longer p q (rule_line r), elem-marked x p q rs)

pub elem_head : (x : ℕ) (xs : List ℕ) → elem x (x ∷ xs) ≡ true
elem_head x xs = ground arith
