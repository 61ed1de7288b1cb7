-- ===== src/Gui/Steps/Kept.antt =====
-- What every reachable session keeps.
use netmon.Base.{ℕ, Bool, List, Option}
use netmon.Base.Text.{Text}
use netmon.HashMap.{HashMap}
use netmon.Capture.Control.{CaptureControl}
use netmon.Gui.Session.Held.{IsCoherent, IsCoherentOf}
use netmon.Gui.Control.{Session}
use netmon.Gui.Control.Shown.{AreShown}
use netmon.Gui.Control.Outcomes.{IsTracked}

-- The capture is coherent, and every process whose block the controller tracks is shown as blocked.
abbrev pub IsSound : {Nft : Type 0} → Session Nft → Type 0
IsSound s = IsCoherent s.app × IsTracked s

abbrev SoundAt :
    HashMap ℕ (List ℕ)
    → Bool × Option CaptureControl × Option Text × List CaptureControl × List ℕ
    → Type 0
SoundAt rules (on, control, path, dropped, blocked) =
    IsCoherentOf on control path dropped × AreShown blocked rules
