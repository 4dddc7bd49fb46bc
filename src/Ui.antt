-- ===== src/Ui.antt =====
-- internal/ui: the pages and the handlers behind them, as functions of the state. The pages hold
-- what the templates are given; the templates, the session store and the requests' decoding are no
-- code of the model. `Pages` has what the handlers read from elsewhere.
pub mod Views
pub mod Forms
pub mod Pages
pub mod Recipients
pub mod Targets
pub mod Home
pub mod Accepts
pub mod Opens
pub mod Detail
pub mod Creates
pub mod Told
pub mod Captures
pub mod Captured
pub mod Serve
pub mod Reads
pub mod Examples
pub mod Links
use calendar_digest.Prelude.{ℕ, Option}
use calendar_digest.Prelude.Chars.{Text}
