-- ===== src/Base/Text.antt =====
-- Texts as lists of code points (the program's own texts are ASCII), with what it uses of `str`.
use Prim.Native.Nat.{ℕ}
use Prim.Native.Char.{code}
use Prim.Native.String.{String}
use mathlib.Core.Path.{◌≡◌, refl}
use mathlib.Core.Bool.{Bool, true, false, ◌&&◌, ◌||◌}
use mathlib.Core.List.{List, [], ◌∷◌, ◌++◌, reverse, reverse-append}
use mathlib.Core.Option.{Option, none, some}
use native.Mathlib.Omega.{arith}
use native.Mathlib.Decide.{ℕ_discrete}
use mathlib.Core.Logic.{◌≢◌}
use netmon.Base.Tests.{leb, nat_eq, nat_eq_iff, if◌then◌else◌, PartialEq, ℕ_eq, eqb_ne, of_discrete}
use netmon.Base.Lists.{All}

abbrev pub Text : Type 0
Text = List ℕ

-- A literal.
abbrev pub text : String → Text
text String.[] = []
text (String.◌∷◌ c s) = code c ∷ text s

unfoldable pub Text-discrete : Discrete Text
Text-discrete = hlevel ℕ_discrete

instance abbrev pub text_eq : PartialEq Text
text_eq = of_discrete Text-discrete

-- `s.strip_prefix(p)`
unfoldable pub strip_prefix : Text → Text → Option Text
strip_prefix [] s = some s
strip_prefix (a ∷ p) [] = none
strip_prefix (a ∷ p) (b ∷ s) = let rest = strip_prefix p s in if nat_eq a b then rest else none

abbrev is_some {ℓ} : {A : Type ℓ} → Option A → Bool
is_some none = false
is_some (some a) = true

-- `s.starts_with(p)`
unfoldable pub starts_with : Text → Text → Bool
unfolding strip_prefix
starts_with p s = is_some (strip_prefix p s)

-- `s.ends_with(p)`
unfoldable pub ends_with : Text → Text → Bool
unfolding starts_with
ends_with p s = starts_with (reverse p) (reverse s)

-- A character in front of the first of several texts.
unfoldable pub prepend : ℕ → List Text → List Text
prepend c [] = (c ∷ []) ∷ []
prepend c (w ∷ ws) = (c ∷ w) ∷ ws

-- `s.split(sep)`
unfoldable pub split_on : ℕ → Text → List Text
unfolding prepend
split_on sep [] = [] ∷ []
split_on sep (c ∷ s) =
    let rest = split_on sep s in if nat_eq c sep then [] ∷ rest else prepend c rest

-- `" "`, `"\t"` and the other blanks of ASCII
abbrev pub is_whitespace : ℕ → Bool
is_whitespace c = nat_eq c 32 || (leb 9 c && leb c 13)

unfoldable pub non_empty : List Text → List Text
non_empty [] = []
non_empty ([] ∷ ws) = non_empty ws
non_empty ((c ∷ w) ∷ ws) = (c ∷ w) ∷ non_empty ws

abbrev pub blanked : Text → Text
blanked [] = []
blanked (c ∷ s) = (if is_whitespace c then 32 else c) ∷ blanked s

-- `s.split_whitespace()`
unfoldable pub split_whitespace : Text → List Text
unfolding non_empty
split_whitespace s = non_empty (split_on 32 (blanked s))

-- `s.lines()`: a last newline ends the last line.
abbrev drop_last_empty : List Text → List Text
drop_last_empty [] = []
drop_last_empty ([] ∷ []) = []
drop_last_empty (w ∷ ws) = w ∷ drop_last_empty ws

unfoldable pub lines : Text → List Text
lines s = drop_last_empty (split_on 10 s)

abbrev pub Without : ℕ → Text → Type 0
Without sep = All (λ c. c ≢ sep)

pub split_on_absent : (sep : ℕ) (s : Text) → Without sep s → split_on sep s ≡ s ∷ []
unfolding split_on prepend
split_on_absent sep [] h = refl
split_on_absent sep (c ∷ s) h = rw (eqb_ne ℕ_eq c sep h.0, split_on_absent sep s h.1) refl

pub split_on-append :
    (sep : ℕ) (s t : Text) → Without sep s → split_on sep (s ++ (sep ∷ t)) ≡ s ∷ split_on sep t
unfolding split_on prepend
split_on-append sep [] t h = rw ((nat_eq_iff sep sep).1 refl) refl
split_on-append sep (c ∷ s) t h = rw (eqb_ne ℕ_eq c sep h.0, split_on-append sep s t h.1) refl

pub strip_prefix-append : (p s : Text) → strip_prefix p (p ++ s) ≡ some s
unfolding strip_prefix
strip_prefix-append [] s = refl
strip_prefix-append (a ∷ p) s = ground (arith, strip_prefix-append p s)

-- What is stripped stood in front.
pub strip_prefix_sound : (p s r : Text) → strip_prefix p s ≡ some r → s ≡ p ++ r
unfolding strip_prefix
strip_prefix_sound [] s r h = cc
strip_prefix_sound (a ∷ p) [] r h = cc
strip_prefix_sound (a ∷ p) (b ∷ s) r h = ground (arith, strip_prefix_sound p s r)

pub starts_with-append : (p s : Text) → starts_with p (p ++ s) ≡ true
unfolding starts_with
starts_with-append p s = rw (strip_prefix-append p s)

pub ends_with-append : (p s : Text) → ends_with p (s ++ p) ≡ true
unfolding ends_with
ends_with-append p s = rw (reverse-append s p) (starts_with-append (reverse p) (reverse s))
