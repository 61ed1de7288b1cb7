-- ===== src/Env.antt =====
-- The home directory of the invoking user, which crates/aggregator/src/lib.rs and
-- crates/gui/src/main.rs look up in the same words.
use netmon.Base.{List, [], ◌∷◌, Option, none, some, get_elem?, if◌then◌else◌, ◌==◌}
use mathlib.Core.Option.{bind}
use netmon.Base.Text.{Text, text, text_eq, lines, split_on}

-- The sixth field of the user's line, if it has six.
abbrev home_field : Text → Text → Option Text
home_field user line =
    let fields = split_on 58 line in
    elim (get_elem? fields 0) [
      | none ↦ none
      | some name ↦ if name == user then get_elem? fields 5 else none
    ]

-- The first line of /etc/passwd for the user that has enough fields decides.
unfoldable pub home_of : Text → List Text → Option Text
home_of user [] = none
home_of user (line ∷ rest) = elim (home_field user line) [
  | some home ↦ some home
  | none ↦ home_of user rest
]

abbrev or_tmp : Option Text → Text
or_tmp none = text "/tmp"
or_tmp (some home) = home

-- The variables SUDO_USER and HOME, and /etc/passwd.
unfoldable pub get_user_home : Option Text → Option Text → Option Text → Text
get_user_home sudo_user home passwd =
    elim (bind sudo_user (λ user. bind passwd (λ content. home_of user (lines content)))) [
      | some found ↦ found
      | none ↦ or_tmp home
    ]
