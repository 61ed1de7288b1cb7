-- ===== src/Controller/Listing.antt =====
-- What the search of crates/controller/src/lib.rs for handles reads from a listing of nft.
use mathlib.Core.List.{reverse, reverse-cons, reverse-reverse, append-nil}
use netmon.Base.{
  ℕ, ◌≡◌, ◌≢◌, refl, sym, ap, subst, ◌∙◌, true, false, List, [], ◌∷◌, ◌++◌, map, none, some, arith,
  if◌then◌else◌, Bool-cases, inl, inr, All, All-append, All-map, ◌≤◌,
}
use netmon.Base.Text.{Text, text, strip_prefix, strip_prefix-append, lines}
use netmon.Base.Word.{u64_max}
use netmon.Base.Numbers.{decimal, parse-decimal, decimal-IsDigit, IsDigit}
use netmon.Resolver.PidMap.{trim, trim_start}
use netmon.Controller.Handles.{
  contains, contains_longer, after_last, handle_word, handle_of_line, handles_of_lines, pid_marker,
  find_rule_handles_for_pid,
}
use netmon.Controller.Nft.{
  Rule, rule_line, comment_prefix, marked, NftApi, arguments, list_handles, exited,
}

-- The first letter of the word does not occur.
no_handle : (s : Text) → All (λ c. c ≢ 104) s → after_last handle_word s ≡ none
unfolding after_last strip_prefix
no_handle [] h = refl
no_handle (c ∷ s) h = rw (no_handle s h.1) (ground (arith, h.0))

-- What stands before does not matter to the last occurrence.
after_last-append : (p s t x : Text) → after_last p t ≡ some x → after_last p (s ++ t) ≡ some x
unfolding after_last
after_last-append p [] t x h = h
after_last-append p (c ∷ s) t x h = rw (after_last-append p s t x h) refl

trim_start-IsDigit : (s : Text) → All IsDigit s → trim_start s ≡ s
unfolding trim_start
trim_start-IsDigit [] h = refl
trim_start-IsDigit (c ∷ s) h = ground (arith, h.0.0)

IsDigit-reverse : (s : Text) → All IsDigit s → All IsDigit (reverse s)
IsDigit-reverse [] h = tt
IsDigit-reverse (c ∷ s) h =
    rw (reverse-cons c s)
      (All-append IsDigit (reverse s) (c ∷ []) (IsDigit-reverse s h.1) (h.0, tt))

trim-IsDigit : (s : Text) → All IsDigit s → trim s ≡ s
unfolding trim
trim-IsDigit s h =
    rw
      (
        trim_start-IsDigit s h,
        trim_start-IsDigit (reverse s) (IsDigit-reverse s h),
        reverse-reverse s,
      )
      refl

-- The digits stand behind the last occurrence of the word, whatever the rule itself says.
after_last-rule_line : (r : Rule) → after_last handle_word (rule_line r) ≡ some (decimal r.handle)
unfolding rule_line
after_last-rule_line r =
    after_last-append handle_word r.statement (text " # handle " ++ decimal r.handle) _
      (after_last-append handle_word (text " # ") (text "handle " ++ decimal r.handle) _ word)
  where
    digits : All (λ c. c ≢ 104) (decimal r.handle)
    digits =
        All-map (λ c h p. absurd (omega (arith, h.1))) (decimal r.handle) (decimal-IsDigit r.handle)

    behind : after_last handle_word (text "andle " ++ decimal r.handle) ≡ none
    behind = no_handle _ (
      (λ p. omega (arith, p)),
      (
        (λ p. omega (arith, p)),
        (
          (λ p. omega (arith, p)),
          ((λ p. omega (arith, p)), ((λ p. omega (arith, p)), ((λ p. omega (arith, p)), digits))),
        ),
      ),
    )

    word : after_last handle_word (text "handle " ++ decimal r.handle) ≡ some (decimal r.handle)
    word = unfold after_last in rw behind (strip_prefix-append handle_word (decimal r.handle))

handle_of_line-rule_line :
    (marker : Text) (r : Rule)
    → r.handle ≤ u64_max
    → handle_of_line marker (rule_line r)
      ≡ (if contains marker (rule_line r) then some r.handle else none)
unfolding handle_of_line
handle_of_line-rule_line marker r h =
    rw
      (
        after_last-rule_line r,
        trim-IsDigit (decimal r.handle) (decimal-IsDigit r.handle),
        parse-decimal u64_max r.handle h,
      )
      refl

handles_of_lines-plain :
    (marker : Text) (ls rest : List Text)
    → All (λ l. contains marker l ≡ false) ls
    → handles_of_lines marker (ls ++ rest) ≡ handles_of_lines marker rest
unfolding handles_of_lines handle_of_line
handles_of_lines-plain marker [] rest h = refl
handles_of_lines-plain marker (l ∷ ls) rest h =
    rw (h.0, handles_of_lines-plain marker ls rest h.1) refl

handles_of_lines-rules :
    (marker : Text) (rs : List Rule) (rest : List Text)
    → All (λ r. r.handle ≤ u64_max) rs
    → handles_of_lines marker rest ≡ []
    → handles_of_lines marker (map rule_line rs ++ rest) ≡ marked marker rs
unfolding handles_of_lines
handles_of_lines-rules marker [] rest f h = h
handles_of_lines-rules marker (r ∷ rs) rest f h =
    rw (handle_of_line-rule_line marker r f.0, handles_of_lines-rules marker rs rest f.1 h)
      (elim (Bool-cases (contains marker (rule_line r))) [ inl y ↦ rw y refl | inr n ↦ rw n refl ])

plain_longer :
    (marker suffix : Text) (ls : List Text)
    → All (λ l. contains marker l ≡ false) ls
    → All (λ l. contains (marker ++ suffix) l ≡ false) ls
plain_longer marker suffix ls =
    All-map
      (λ l h. elim (Bool-cases (contains (marker ++ suffix) l)) [
        | inl y ↦ cc (contains_longer marker suffix l y, h)
        | inr n ↦ n
      ])
      ls

-- A listing: its rules, one on a line, between lines that are no comments of the program.
module _ (opening closing : List Text) (rs : List Rule) where
  listed_lines : List Text
  listed_lines = opening ++ (map rule_line rs ++ closing)

  listed_lines-marked :
      (pid : ℕ) (suffix : Text)
      → All (λ l. contains comment_prefix l ≡ false) opening
      → All (λ l. contains comment_prefix l ≡ false) closing
      → All (λ r. r.handle ≤ u64_max) rs
      → handles_of_lines (pid_marker pid ++ suffix) listed_lines
        ≡ marked (pid_marker pid ++ suffix) rs
  unfolding pid_marker listed_lines
  listed_lines-marked pid suffix ho hc fit =
      handles_of_lines-plain marker opening _ (plain_longer comment_prefix rest _ ho)
      ∙ handles_of_lines-rules marker rs closing fit (
          ap (handles_of_lines marker) (sym (append-nil closing))
          ∙ handles_of_lines-plain marker closing [] (plain_longer comment_prefix rest _ hc)
          ∙ (unfold handles_of_lines in refl))
    where
      rest : Text
      rest = (decimal pid ++ text "-") ++ suffix

      marker : Text
      marker = comment_prefix ++ rest

-- From a listing that shows one rule on a line, ending in ` # handle ` and a 64-bit number, between
-- lines that hold no comment of the program, the search for a process reads the handles of exactly
-- the rules whose lines have its marker, in their order, whatever else the rules say.
pub find_rule_handles_for_pid-marked :
    (stdout : Text) (opening closing : List Text) (rs : List Rule) (pid : ℕ)
    → All (λ l. contains comment_prefix l ≡ false) opening
    → All (λ l. contains comment_prefix l ≡ false) closing
    → All (λ r. r.handle ≤ u64_max) rs
    → lines stdout ≡ opening ++ (map rule_line rs ++ closing)
    → find_rule_handles_for_pid stdout pid ≡ marked (pid_marker pid) rs
unfolding find_rule_handles_for_pid listed_lines
find_rule_handles_for_pid-marked stdout opening closing rs pid ho hc fit h =
    ap (handles_of_lines (pid_marker pid)) h
    ∙ subst (λ m. handles_of_lines m (opening ++ (map rule_line rs ++ closing)) ≡ marked m rs)
        (append-nil (pid_marker pid)) (listed_lines-marked opening closing rs pid [] ho hc fit)

module _ (api : NftApi) where
  open api use {
    Nft, execute, chain, listed, opening, closing, opening_plain, closing_plain, handles_fit,
  }

  -- The search of a listing for a marker finds the handles of the rules with it, in their order.
  pub listed-marked :
      (n : Nft) (out error : Text) (pid : ℕ) (suffix : Text)
      → (execute (arguments list_handles) [] n).0 ≡ exited true out error
      → handles_of_lines (pid_marker pid ++ suffix) (lines out)
        ≡ marked (pid_marker pid ++ suffix) (chain n)
  unfolding listed_lines
  listed-marked n out error pid suffix h =
      ap (handles_of_lines (pid_marker pid ++ suffix)) (listed n out error h)
      ∙ listed_lines-marked (opening n) (closing n) (chain n) pid suffix (opening_plain n)
          (closing_plain n) (handles_fit n)
