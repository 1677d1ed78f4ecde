-- ===== src/Session/Closing.antt =====
-- The goroutine that ChannelHandler of pkg/bastion/ssh.go starts for a session: multiChannelHandler,
-- then the update of the session's row. Errors are their texts.
use sshportal.Base.{ℕ, String, Option, none, some, List}
use sshportal.Models.{Session, status_closed}
use sshportal.Auth.Tables.{nonzero}
use sshportal.Channel.{SessionConfig}
use sshportal.Session.Pipe.{Progress, waiting, returned, Event}
use sshportal.Session.Start.{Naming, Files, pipe}
use sshportal.Session.Hops.{
  Network, Handled, rejected, ignored, panicked, failed, piped, multi_channel_handler,
}

-- fmt.Sprintf("%v", err), and "" without an error
abbrev pub error_text : Option String → String
error_text none = ""
error_text (some e) = e

-- Updates with a struct writes the fields that are not zero
unfoldable pub close_session : ℕ → Option String → Session → Session
close_session now e row = record row {
  status = status_closed;
  err_msg = nonzero row.err_msg (error_text e);
  stopped_at = some now;
}

-- what multiChannelHandler returns; `none` if it does not
abbrev pub ending :
    {A : Type 0} → Handled String A → (SessionConfig → Progress String) → Option (Option String)
ending rejected forwarded = some none
ending ignored forwarded = some none
ending panicked forwarded = none
ending (failed e _) forwarded = some (some e)
ending (piped _ config) forwarded = elim (forwarded config) [
  | waiting _ ↦ none
  | returned e ↦ some e
]

-- the update once multiChannelHandler has returned
unfoldable pub closed_by : ℕ → Session → Option (Option String) → Option Session
unfolding close_session
closed_by now row none = none
closed_by now row (some e) = some (close_session now e row)

-- `none` while the session goes on
unfoldable pub serve_session :
    {C K A : Type 0}
    → Network String C K A
    → Files String
    → Naming
    → String
    → List SessionConfig
    → List (Event String)
    → ℕ
    → Session
    → Option Session
unfolding multi_channel_handler pipe closed_by
serve_session net files naming channel_type configs events now row =
    let handled = (multi_channel_handler net channel_type configs).0 in
    closed_by now row (
      ending handled
        (λ c. (pipe files naming c.logs_location channel_type c.logging_mode events).0))
