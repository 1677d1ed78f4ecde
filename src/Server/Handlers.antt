-- ===== src/Server/Handlers.antt =====
-- ShellHandler of pkg/bastion/ssh.go and DefaultChannelHandler as server.go sets it.
use sshportal.Base.{String, Option, none, some, List, [], ◌∷◌, ◌++◌, ◌==◌, if◌then◌else◌}
use sshportal.Auth.{
  AuthContext, AuthError, Message, no_message, welcome, user_type, healthcheck, bastion, invite,
  shell,
}

-- what is done to the session; the texts of an error and of a greeting are left out
pub data Shown : Type 0 where
  failed : String → Shown
  refused : AuthError → Shown
  exit : Shown
  greeted : (name email : String) → Shown
  wrote : String → Shown
  shell_run : Shown

pub data Handled : Type 0 where
  done : List Shown → Handled
  panicked : List Shown → Handled

abbrev pub greeting : Message → List Shown
greeting no_message = []
greeting (welcome name email) = greeted name email ∷ []

-- `version`, `gitSha` and `gitTag`, which are the shell's
pub record Build : Type 0 where
  pub version : String
  pub git_sha : String
  pub git_tag : String

abbrev shell_end : Option String → List Shown
shell_end none = shell_run ∷ []
shell_end (some e) = shell_run ∷ failed e ∷ exit ∷ []

-- given the error of `shell`, if it returns one
unfoldable pub shell_handler : (AuthContext → Build → Option String) → Build → AuthContext → Handled
unfolding user_type
shell_handler run build ctx = elim ctx.error [
  | some e ↦ done (refused e ∷ exit ∷ [])
  | none ↦ elim (user_type ctx.input_username ctx.user) [
    | healthcheck ↦ done (greeting ctx.message ++ wrote "OK\n" ∷ [])
    | shell ↦ done (greeting ctx.message ++ shell_end (run ctx build))
    | invite ↦ done (greeting ctx.message)
    | bastion ↦ panicked (greeting ctx.message)
  ]
]

-- the library's handlers, and the refusal
pub data Served : Type 0 where
  default_session direct_tcpip unknown_channel_type : Served

unfoldable pub default_channel_handler : String → Served
default_channel_handler channel_type =
    if channel_type == "session"
    then default_session
    else if channel_type == "direct-tcpip"
    then direct_tcpip
    else unknown_channel_type
