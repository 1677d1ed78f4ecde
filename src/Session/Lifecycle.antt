-- ===== src/Session/Lifecycle.antt =====
-- What becomes of the session that ChannelHandler of pkg/bastion/ssh.go starts.
use sshportal.Base.{none, String, ◌≡◌, Option, some}
use sshportal.Models.{Session, Host}
use sshportal.Auth.{AuthContext}
use sshportal.Channel.{Env, SessionConfig, panicked, Outcome, forwarding, session_row, host_by_name}
use sshportal.Session.Hops.{Handled}
use sshportal.Session.Hops
use sshportal.Session.Pipe.{Progress, returned}

module _ {S : Type 0} (env : Env S) (ctx : AuthContext) (s : S) where
  -- the row of a session that is started is the one that is created
  abbrev Created : Outcome → Type 0
  Created (forwarding configs row) =
      (t : Host) × (s' : S) × (host_by_name env ctx.input_username s ≡ some t)
      × (env.create_session (session_row ctx.user t) s ≡ some (row, s'))
  Created _ = Unit

-- the error that the session comes to, or none: that of a connection, or of the forwarding over the
-- channel that is opened; a channel that is rejected, or not accepted, has none
abbrev pub Reports :
    {A : Type 0} → (SessionConfig → Progress String) → Handled String A → Option String → Type 0
Reports forwarded Hops.rejected e = e ≡ none
Reports forwarded Hops.ignored e = e ≡ none
Reports forwarded Hops.panicked e = ⊥
Reports forwarded (Hops.failed x _) e = e ≡ some x
Reports forwarded (Hops.piped _ config) e = forwarded config ≡ returned e
