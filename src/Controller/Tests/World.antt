-- ===== src/Controller/Tests/World.antt =====
-- An nft that knows two rules: a limit of process 42, whose handle is 12, which a script inserts, and
-- a block of process 7, whose handle is 9.
use netmon.Base.{
  ℕ, ◌+◌, ◌≤◌, map, All, ◌≡◌, ◌≢◌, refl, sym, ap, ◌∙◌, Bool, true, false, List, [], ◌∷◌, ◌++◌,
  Option, none, some, arith, if◌then◌else◌, ◌==◌,
}
use netmon.Base.Text.{Text, text, text_eq, strip_prefix, starts_with, lines, split_on, prepend}
use netmon.Base.Word.{u64_max}
use netmon.Base.Numbers.{digits, decimal, from_str_radix, parse-decimal}
use netmon.Controller.Handles.{contains}
use netmon.Controller.Action.{Control}
use netmon.Controller.Process.{rate_limit_key}
use netmon.Controller.Nft.{
  Reply, exited, succeeded, Rule, rule_line, comment_prefix, without, has_handle, NftApi, arguments,
}

abbrev limit_42 : Rule
limit_42 = record {
  handle = 12;
  statement =
      text "meta skuid 5 limit rate over 8 kbytes/second comment \"netmon-pid-42-rate-limit\" drop";
}

-- The name of this process has the word that stands before a handle.
abbrev block_7 : Rule
block_7 = record {
  handle = 9;
  statement = text "tcp sport 53 comment \"netmon-pid-7-handle 3\" drop";
}

-- Whether the limit is there, and whether the block is.
abbrev pub Present : Type 0
Present = Bool × Bool

abbrev head : List Text → Text
head [] = []
head (a ∷ more) = a

abbrev last : List Text → Text
last [] = []
last (a ∷ []) = a
last (a ∷ (b ∷ more)) = last (b ∷ more)

abbrev pub chain_of : Present → List Rule
chain_of (false, false) = []
chain_of (true, false) = limit_42 ∷ []
chain_of (false, true) = block_7 ∷ []
chain_of (true, true) = limit_42 ∷ (block_7 ∷ [])

abbrev pub table_lines : List Text
table_lines =
    text "table inet filter { # handle 1"
    ∷ text "chain output { # handle 1"
    ∷ text "type filter hook output priority filter; policy accept;"
    ∷ []

abbrev pub closing_lines : List Text
closing_lines = text "}" ∷ text "}" ∷ []

abbrev unlines : List Text → Text
unlines [] = []
unlines (l ∷ ls) = l ++ (10 ∷ unlines ls)

abbrev pub listing : Present → Text
listing present = unlines (table_lines ++ (map rule_line (chain_of present) ++ closing_lines))

-- Deletes the limit or the block, by whether its handle is given.
abbrev delete_rule_of : Bool → Bool → Present → Reply × Present
delete_rule_of true is_9 (true, b) = (exited true [] [], (false, b))
delete_rule_of true is_9 (false, b) = (exited false [] (text "No such rule"), (false, b))
delete_rule_of false true (a, true) = (exited true [] [], (a, false))
delete_rule_of false true (a, false) = (exited false [] (text "No such rule"), (a, false))
delete_rule_of false false present = (exited false [] (text "No such rule"), present)

abbrev with_limit : Present → Present
with_limit (a, b) = (true, b)

unfoldable pub nft_run : List Text → Text → Present → Reply × Present
unfolding starts_with strip_prefix rule_line
nft_run args stdin present =
    if starts_with (text "delete") (head args)
    then delete_rule_of (last args == decimal 12) (last args == decimal 9) present
    else if starts_with (text "-a") (head args)
    then (exited true (listing present) [], present)
    else if starts_with (text "flush") (head args)
    then (exited true [] [], (false, false))
    else if starts_with (text "-f") (head args)
    then (exited true [] [], with_limit present)
    else (exited true [] [], present)

decimal_injective : (m n : ℕ) → decimal m ≡ decimal n → m ≡ n
decimal_injective m n p = some_injective (
    sym (parse-decimal (m + n) m (omega arith))
    ∙ ap (from_str_radix (m + n) 10) p
    ∙ parse-decimal (m + n) n (omega arith))
  where
    some_injective : some m ≡ some n → m ≡ n
    some_injective q = cc q

pub deleted_12 : (h : ℕ) → (decimal h == decimal 12) ≡ true → h ≡ 12
deleted_12 h p = decimal_injective h 12 ((text_eq.eqb_iff (decimal h) (decimal 12)).0 p)

true_ne : false ≢ true
true_ne p = cc p

pub deleted_9 : (h : ℕ) → (decimal h == decimal 9) ≡ true → h ≡ 9
deleted_9 h p = decimal_injective h 9 ((text_eq.eqb_iff (decimal h) (decimal 9)).0 p)

pub listing_shows :
    (present : Present)
    → lines (listing present) ≡ table_lines ++ (map rule_line (chain_of present) ++ closing_lines)
unfolding lines split_on prepend rule_line decimal digits
listing_shows (false, false) = refl
listing_shows (true, false) = refl
listing_shows (false, true) = refl
listing_shows (true, true) = refl

pub table_plain : All (λ l. contains comment_prefix l ≡ false) table_lines
unfolding contains starts_with strip_prefix
table_plain = (refl, (refl, (refl, tt)))

pub closing_lines_plain : All (λ l. contains comment_prefix l ≡ false) closing_lines
unfolding contains starts_with strip_prefix
closing_lines_plain = (refl, (refl, tt))

pub handles_small : (present : Present) → All (λ r. r.handle ≤ u64_max) (chain_of present)
handles_small (false, false) = tt
handles_small (true, false) = (omega arith, tt)
handles_small (false, true) = (omega arith, tt)
handles_small (true, true) = (omega arith, (omega arith, tt))

pub deletion_removes :
    (h : ℕ) (is_12 is_9 : Bool) (present : Present)
    → (is_12 ≡ true → h ≡ 12)
    → (is_9 ≡ true → h ≡ 9)
    → succeeded (delete_rule_of is_12 is_9 present).0 ≡ true
    → chain_of (delete_rule_of is_12 is_9 present).1 ≡ without h (chain_of present)
deletion_removes h true is_9 (true, true) f g s = rw (f refl) refl
deletion_removes h true is_9 (true, false) f g s = rw (f refl) refl
deletion_removes h true is_9 (false, b) f g s = cc s
deletion_removes h false true (true, true) f g s = rw (g refl) refl
deletion_removes h false true (false, true) f g s = rw (g refl) refl
deletion_removes h false true (a, false) f g s = cc s
deletion_removes h false false present f g s = cc s

pub deletion_fails :
    (h : ℕ) (is_12 is_9 : Bool) (present : Present)
    → (is_12 ≡ true → h ≡ 12)
    → (is_9 ≡ true → h ≡ 9)
    → has_handle h (chain_of present) ≡ false
    → succeeded (delete_rule_of is_12 is_9 present).0 ≡ false
deletion_fails h true is_9 (true, true) f g n = absurd (true_ne (sym (rw (f refl) at n)))
deletion_fails h true is_9 (true, false) f g n = absurd (true_ne (sym (rw (f refl) at n)))
deletion_fails h true is_9 (false, b) f g n = refl
deletion_fails h false true (true, true) f g n = absurd (true_ne (sym (rw (g refl) at n)))
deletion_fails h false true (false, true) f g n = absurd (true_ne (sym (rw (g refl) at n)))
deletion_fails h false true (a, false) f g n = refl
deletion_fails h false false present f g n = refl

pub output_of : {a b : Text} {e e' : Text} → exited true a e ≡ exited true b e' → a ≡ b
output_of p = cc p

unfoldable pub world : NftApi
unfolding nft_run starts_with strip_prefix arguments rule_line
world = record {
  Nft = Present;
  execute = nft_run;
  chain = chain_of;
  opening = λ n. table_lines;
  closing = λ n. closing_lines;
  opening_plain = λ n. table_plain;
  closing_plain = λ n. closing_lines_plain;
  handles_fit = handles_small;
  listed = λ n out error h. ap lines (sym (output_of h)) ∙ listing_shows n;
  listing_keeps = λ n. refl;
  deleted = λ n h.
      deletion_removes h (decimal h == decimal 12) (decimal h == decimal 9) n (deleted_12 h)
        (deleted_9 h);
  absent = λ n h.
      deletion_fails h (decimal h == decimal 12) (decimal h == decimal 9) n (deleted_12 h)
        (deleted_9 h);
  table_keeps = λ n. refl;
  chain_keeps = λ n. refl;
  flushed = λ n s. refl;
}

abbrev pub status_file : Text → Option Text
status_file path = some (text "Uid: 0 5\n")

unfoldable pub start : Control world.Nft
unfolding world
start = record { nft = (false, true); rules = [] }

unfoldable pub blocked : Control world.Nft
unfolding world
blocked = record { nft = (true, true); rules = (42, 12 ∷ []) ∷ [] }

unfoldable pub limited : Control world.Nft
unfolding world
limited = record { nft = (true, true); rules = (rate_limit_key 42, 12 ∷ []) ∷ [] }

-- The limit's handle is still tracked, and its rule gone.
unfoldable pub key_42 : Control world.Nft
unfolding world
key_42 = record { nft = (false, true); rules = (rate_limit_key 42, 12 ∷ []) ∷ [] }

unfoldable pub unreadable : Text → Option Text
unreadable path = none

unfoldable pub emptied : Control world.Nft
unfolding world
emptied = record { nft = (false, false); rules = [] }
