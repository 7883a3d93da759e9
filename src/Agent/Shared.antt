-- ===== src/Agent/Shared.antt =====
-- internal/controllers/migagent/shared.go: the channel of capacity one by which the reporter tells the
-- actuator that it has reported. The state is whether the channel holds a token.
pub mod Handshake
use walkai_nos.Base.{Bool, true, false}

abbrev pub on_report_done : Bool → Bool
on_report_done reports = true

abbrev pub on_apply_done : Bool → Bool
on_apply_done reports = false

-- The answer takes the token.
abbrev pub at_least_one_report_since_last_apply : Bool → Bool × Bool
at_least_one_report_since_last_apply reports = (reports, false)
