-- ===== src/Controller/Handles.antt =====
-- The handles that `find_rule_handles_for_pid` and `find_rule_handles_for_pid_comment` of
-- crates/controller/src/lib.rs read from the text that nft prints for the chain.
use mathlib.Core.List.{Mem, Mem-prop, mem-cons, mem-cons_self, mem-cons_of_mem}
use mathlib.Core.Logic.Or
use netmon.Base.{
  ℕ, ◌≡◌, refl, sym, subst, Bool, true, false, ◌||◌, List, [], ◌∷◌, ◌++◌, Option, none, some, arith,
  if◌then◌else◌, Bool-cases, inl, inr,
}
use netmon.Base.Text.{Text, text, strip_prefix, starts_with, lines}
use netmon.Base.Word.{u64_max}
use netmon.Base.Numbers.{decimal, from_str_radix}
use netmon.Resolver.PidMap.{trim}

-- `line.contains(marker)`
unfoldable pub contains : Text → Text → Bool
contains marker [] = starts_with marker []
contains marker (c ∷ s) = starts_with marker (c ∷ s) || contains marker s

abbrev pub or_else {ℓ} : {A : Type ℓ} → Option A → Option A → Option A
or_else (some a) b = some a
or_else none b = b

-- What follows the last occurrence, as `rfind` and the slice behind it give.
unfoldable pub after_last : Text → Text → Option Text
after_last p [] = strip_prefix p []
after_last p (c ∷ s) = or_else (after_last p s) (strip_prefix p (c ∷ s))

abbrev pub handle_word : Text
handle_word = text "handle "

abbrev pub parsed_handle : Option Text → Option ℕ
parsed_handle none = none
parsed_handle (some handle_txt) = from_str_radix u64_max 10 (trim handle_txt)

unfoldable pub handle_of_line : Text → Text → Option ℕ
handle_of_line marker line =
    if contains marker line then parsed_handle (after_last handle_word line) else none

abbrev pub cons_some : Option ℕ → List ℕ → List ℕ
cons_some none hs = hs
cons_some (some h) hs = h ∷ hs

unfoldable pub handles_of_lines : Text → List Text → List ℕ
handles_of_lines marker [] = []
handles_of_lines marker (line ∷ rest) =
    cons_some (handle_of_line marker line) (handles_of_lines marker rest)

-- `netmon-pid-{pid}-`
unfoldable pub pid_marker : ℕ → Text
pid_marker pid = text "netmon-pid-" ++ (decimal pid ++ text "-")

unfoldable pub find_rule_handles_for_pid : Text → ℕ → List ℕ
find_rule_handles_for_pid stdout pid = handles_of_lines (pid_marker pid) (lines stdout)

unfoldable pub find_rule_handles_for_pid_comment : Text → ℕ → Text → List ℕ
find_rule_handles_for_pid_comment stdout pid suffix =
    handles_of_lines (pid_marker pid ++ suffix) (lines stdout)

starts_with_longer : (p q s : Text) → starts_with (p ++ q) s ≡ true → starts_with p s ≡ true
unfolding starts_with strip_prefix
starts_with_longer [] q s h = refl
starts_with_longer (a ∷ p) q [] h = cc
starts_with_longer (a ∷ p) q (b ∷ s) h = ground (arith, starts_with_longer p q s)

pub contains_longer : (p q s : Text) → contains (p ++ q) s ≡ true → contains p s ≡ true
unfolding contains
contains_longer p q [] h = starts_with_longer p q [] h
contains_longer p q (c ∷ s) h =
    ground (arith, starts_with_longer p q (c ∷ s), contains_longer p q s)

later_handle : (o : Option ℕ) (h : ℕ) (wide : List ℕ) → Mem h wide → Mem h (cons_some o wide)
later_handle none h wide m = m
later_handle (some x) h wide m = mem-cons_of_mem x m

first_handle :
    (o : Option ℕ) (rest wide : List ℕ) (h : ℕ)
    → Mem h (cons_some o rest)
    → (Mem h rest → Mem h wide)
    → Mem h (cons_some o wide)
first_handle none rest wide h m f = f m
first_handle (some x) rest wide h m f =
    Or.elim Mem-prop (mem-cons.0 m) (λ e. subst (λ y. Mem h (y ∷ wide)) e mem-cons_self)
      (λ r. mem-cons_of_mem x (f r))

same_handle :
    (p q line : Text) (rest wide : List ℕ) (h : ℕ)
    → Mem h (cons_some (handle_of_line (p ++ q) line) rest)
    → (Mem h rest → Mem h wide)
    → Mem h (cons_some (handle_of_line p line) wide)
same_handle p q line rest wide h m f = elim (Bool-cases (contains (p ++ q) line)) [
  | inl y ↦
      let found : Mem h (cons_some (parsed_handle (after_last handle_word line)) rest) =
        subst (λ o. Mem h (cons_some o rest)) (marked (p ++ q) line y) m in
      subst (λ o. Mem h (cons_some o wide)) (sym (marked p line (contains_longer p q line y)))
        (first_handle _ rest wide h found f)
  | inr n ↦
      later_handle _ h wide (f (subst (λ o. Mem h (cons_some o rest)) (unmarked (p ++ q) line n) m))
]
  where
    marked :
        (marker l : Text)
        → contains marker l ≡ true
        → handle_of_line marker l ≡ parsed_handle (after_last handle_word l)
    marked marker l y = unfold handle_of_line in rw y refl

    unmarked : (marker l : Text) → contains marker l ≡ false → handle_of_line marker l ≡ none
    unmarked marker l n = unfold handle_of_line in rw n refl

handles-Mem :
    (p q : Text) (ls : List Text) (h : ℕ)
    → Mem h (handles_of_lines (p ++ q) ls)
    → Mem h (handles_of_lines p ls)
unfolding handles_of_lines
handles-Mem p q [] h m = m
handles-Mem p q (line ∷ rest) h m =
    same_handle p q line (handles_of_lines (p ++ q) rest) (handles_of_lines p rest) h m
      (handles-Mem p q rest h)

-- Every rule that the search for a process's rules with a comment finds, its rate limits among
-- them, is also found by the search for all rules of the process, by which it is unblocked.
pub find_rule_handles_for_pid_comment-Mem :
    (stdout : Text) (pid : ℕ) (suffix : Text) (h : ℕ)
    → Mem h (find_rule_handles_for_pid_comment stdout pid suffix)
    → Mem h (find_rule_handles_for_pid stdout pid)
unfolding find_rule_handles_for_pid find_rule_handles_for_pid_comment
find_rule_handles_for_pid_comment-Mem stdout pid suffix h m =
    handles-Mem (pid_marker pid) suffix (lines stdout) h m
