-- ===== src/Gui/Host/Shutdown.antt =====
-- What the shutdown of the user interface leaves behind.
use netmon.Base.Text.{Text}
use netmon.Gui.Control.{Session}
