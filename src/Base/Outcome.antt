-- ===== src/Base/Outcome.antt =====
-- A Rust function that may return early with an error or panic on an index out of range.
use Prim.Native.Nat.{ℕ, ◌-◌, ◌≤◌, ◌<◌}
use mathlib.Core.Path.{◌≡◌, refl, subst}
use mathlib.Core.Logic.{◌≢◌}
use mathlib.Core.Bool.{Bool, true, false, ◌&&◌}
use mathlib.Core.List.{List}
use mathlib.Core.Option.{Option, none, some}
use netmon.Base.Tests.{leb, le→leb, if◌then◌else◌}
use netmon.Base.Lists.{length, get_elem?, take, drop, get_elem?_of_All, All}

pub data Outcome (E A : Type 0) : Type 0 where
  ret : A → Outcome E A
  err : E → Outcome E A
  panicked : Outcome E A

module _ {E : Type 0} where
  infixl 5 ◌>>=◌ ◌>>◌
  unfoldable pub ◌>>=◌ : {A B : Type 0} → Outcome E A → (A → Outcome E B) → Outcome E B
  ret a >>= k = k a
  err e >>= k = err e
  panicked >>= k = panicked

  unfoldable pub ◌>>◌ : {B : Type 0} → Outcome E (Unit {0}) → Outcome E B → Outcome E B
  ret _ >> k = k
  err e >> k = err e
  panicked >> k = panicked

  -- `if !condition { return Err(e) }`
  unfoldable pub guard : Bool → E → Outcome E (Unit {0})
  guard true e = ret tt
  guard false e = err e

  -- `option.ok_or(e)?`
  unfoldable pub ok_or : {A : Type 0} → Option A → E → Outcome E A
  ok_or none e = err e
  ok_or (some a) e = ret a

  abbrev element : {A : Type 0} → Option A → Outcome E A
  element none = panicked
  element (some a) = ret a

  -- `bytes[i]`
  unfoldable pub index : {A : Type 0} → List A → ℕ → Outcome E A
  index bytes i = element (get_elem? bytes i)

  -- `&bytes[from..to]`
  unfoldable pub slice : {A : Type 0} → List A → ℕ → ℕ → Outcome E (List A)
  slice bytes from to =
      if leb from to && leb to (length bytes)
      then ret (take (to - from) (drop from bytes))
      else panicked

  -- The call does not panic, and a value that it returns has the property.
  pub data Ensures {A : Type 0} (P : A → Type 0) : Outcome E A → Type 0 where
    gives : (a : A) → P a → Ensures P (ret a)
    fails : (e : E) → Ensures P (err e)

  pub Ensures-ne-panicked :
      {A : Type 0} {P : A → Type 0} (m : Outcome E A) → Ensures P m → m ≢ panicked
  Ensures-ne-panicked m (gives a h) p = cc
  Ensures-ne-panicked m (fails e) p = cc

  pub Ensures-ret :
      {A : Type 0} (P : A → Type 0) (m : Outcome E A) (a : A) → Ensures P m → m ≡ ret a → P a
  Ensures-ret P m a (gives b h) p = subst P (cc) h
  Ensures-ret P m a (fails e) p = cc

  pub Ensures-bind :
      {A B : Type 0} {P : A → Type 0} {R : B → Type 0} {m : Outcome E A} {k : A → Outcome E B}
      → Ensures P m
      → ((a : A) → P a → Ensures R (k a))
      → Ensures R (m >>= k)
  unfolding ◌>>=◌
  Ensures-bind (gives a h) f = f a h
  Ensures-bind (fails e) f = fails e

  pub Ensures-guard :
      {B : Type 0} {R : B → Type 0} (b : Bool) (e : E) {k : Outcome E B}
      → (b ≡ true → Ensures R k)
      → Ensures R (guard b e >> k)
  unfolding ◌>>◌ guard
  Ensures-guard true e f = f refl
  Ensures-guard false e f = fails e

  pub Ensures-if :
      {A : Type 0} {R : A → Type 0} (b : Bool) {m n : Outcome E A}
      → (b ≡ true → Ensures R m)
      → (b ≡ false → Ensures R n)
      → Ensures R (if b then m else n)
  Ensures-if true f g = f refl
  Ensures-if false f g = g refl

  pub index_eq :
      {A : Type 0} (bytes : List A) (i : ℕ) (a : A)
      → get_elem? bytes i ≡ some a
      → index bytes i ≡ ret a
  unfolding index
  index_eq bytes i a h = rw h

  pub Ensures-index :
      {A : Type 0} (Q : A → Type 0) (bytes : List A) (i : ℕ)
      → All Q bytes
      → i < length bytes
      → Ensures Q (index bytes i)
  unfolding index
  Ensures-index Q bytes i g h = let (a, p, q) = get_elem?_of_All Q bytes i g h in rw p (gives a q)

  pub Ensures-slice :
      {A : Type 0} (bytes : List A) (from to : ℕ)
      → from ≤ to
      → to ≤ length bytes
      → Ensures (λ (xs : List A). xs ≡ take (to - from) (drop from bytes)) (slice bytes from to)
  unfolding slice
  Ensures-slice bytes from to h k = rw (le→leb from to h, le→leb to (length bytes) k) (gives _ refl)
