-- ===== src/Gui/Host.antt =====
-- What crates/gui/src/main.rs asks of the host before it starts. The environment and the files are
-- parameters.
pub mod Shutdown
use Prim.Native.Nat.{bit_and}
use netmon.Base.{
  ℕ, ◌+◌, ◌^◌, Bool, false, not, ◌&&◌, ◌||◌, List, [], ◌∷◌, ◌++◌, map, Option, none, some, nat_eq,
  leb, get_elem?, if◌then◌else◌,
}
use mathlib.Core.Option.{bind}
use netmon.Base.Text.{Text, text, text_eq, starts_with, lines, split_whitespace}
use netmon.Base.Word.{u64_max}
use netmon.Base.Numbers.{from_str_radix}
use netmon.Controller.Handles.{contains}
use netmon.Controller.Nft.{NftApi}
use netmon.Controller.Action.{Control}
use netmon.Controller.Action
use netmon.Controller.Process.{unblock_all}
use netmon.Gui.Types.{new}
use netmon.Gui.Session.{Ending, stopped}
use netmon.Gui.Control.{Session}

abbrev or_empty_text : Option Text → Text
or_empty_text none = []
or_empty_text (some s) = s

-- `to_lowercase`, of ASCII
abbrev to_lowercase : Text → Text
to_lowercase s = map (λ c. if leb 65 c && leb c 90 then c + 32 else c) s

unfoldable pub detect_virtualbox : (Text → Option Text) → Bool
detect_virtualbox read_to_string =
    contains (text "vbox")
      (to_lowercase (or_empty_text (read_to_string (text "/proc/sys/kernel/hostname"))))
    || contains (text "virtualbox")
        (to_lowercase (or_empty_text (read_to_string (text "/sys/class/dmi/id/product_name"))))

unfoldable pub cap_eff_line : List Text → Option Text
cap_eff_line [] = none
cap_eff_line (line ∷ rest) =
    if starts_with (text "CapEff:") line then some line else cap_eff_line rest

abbrev cap_net_admin : ℕ
cap_net_admin = 2 ^ 12

abbrev cap_net_raw : ℕ
cap_net_raw = 2 ^ 13

unfoldable pub has_bits : ℕ → Bool
has_bits cap_eff =
    not (nat_eq (bit_and cap_eff cap_net_admin) 0) && not (nat_eq (bit_and cap_eff cap_net_raw) 0)

abbrev is_granted : Option ℕ → Bool
is_granted none = false
is_granted (some cap_eff) = has_bits cap_eff

-- On the text of /proc/self/status.
unfoldable pub has_required_capabilities : Option Text → Bool
has_required_capabilities status = is_granted (
    bind status (λ content.
      bind (cap_eff_line (lines content)) (λ line.
        bind (get_elem? (split_whitespace line) 1) (λ hex. from_str_radix u64_max 16 hex))))

-- `true` where the program goes on; else it exits with code 1.
unfoldable pub ensure_privileges_or_exit : ℕ → Option Text → Bool
ensure_privileges_or_exit euid status = nat_eq euid 0 || has_required_capabilities status

module _ (api : NftApi) where
  open api use {Nft}

  -- `main`: the first session, or the exit.
  unfoldable pub main : ℕ → Option Text → List Text → Bool → Control Nft → Option (Session Nft)
  main euid status devices virtualbox c =
      if ensure_privileges_or_exit euid status
      then some record { app = new devices virtualbox; control = (Action.setup_nftables api c).1 }
      else none

  -- `drop`: both threads are told to stop, a join of each is waited for up to its timeout, and all blocks are removed.
  unfoldable pub drop : Ending → Session Nft → Session Nft
  drop e s = record {
    app = record s.app {
      capture_running = false;
      app_running = false;
      capture_control = none;
      dropped = s.app.dropped ++ stopped e s.app.capture_control;
      aggregator_control = false;
    };
    control = (unblock_all api s.control).1;
  }
