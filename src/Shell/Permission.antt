-- ===== src/Shell/Permission.antt =====
-- Who may run which command.
use sshportal.Base.{
  String, ◌≡◌, refl, true, false, List, [], ◌∷◌, any, length, ltb, arith, Result, ok, err,
}
use sshportal.Models.{User}
use sshportal.Lookup.{has_role, check_roles}
use sshportal.Shell.Store.{Gorm}
use sshportal.Shell.Actions.{Context, Env, ShellError, no_permission, Reply, help}
use sshportal.Shell.Run.{
  Command, acl, host, host_group, user_group, user, create, inspect, ls, key_install, key_print,
  version, exit, run_command, commands,
}

-- the roles of which a command asks for one; four ask for none
abbrev pub needed : Command → List String
needed (host inspect) = "admin" ∷ "listhosts" ∷ []
needed (host ls) = "admin" ∷ "listhosts" ∷ []
needed key_install = []
needed key_print = []
needed version = []
needed exit = []
needed _ = "admin" ∷ []

denied :
    (u : User) (roles : List String)
    → any (has_role u) roles ≡ false
    → check_roles u roles ≡ err roles
unfolding check_roles
denied u roles h = rw h refl

-- the error, or the help of a command that was given the wrong number of arguments
abbrev pub Refused : {S : Type 0} → List String → S → Result ShellError Reply × S → Type 0
Refused roles s (ok help, s') = s' ≡ s
Refused roles s (err (no_permission l), s') = (l ≡ roles) × (s' ≡ s)
Refused roles s _ = ⊥

module _ {S : Type 0} (g : Gorm S) (env : Env) (myself : User) (c : Context) (s : S) where
  -- A user without any of the roles that a command asks for gets nothing by it: the error that names
  -- them, or the help of the command, and the database as it was.
  pub run_command-Refused :
      (command : Command)
      → ltb 0 (length (needed command)) ≡ true
      → any (has_role myself) (needed command) ≡ false
      → Refused (needed command) s (run_command g env myself command c s)
  unfolding commands
  run_command-Refused (acl create) n h = ground (arith, denied myself ("admin" ∷ []) h)
  run_command-Refused (host create) n h = ground (arith, denied myself ("admin" ∷ []) h)
  run_command-Refused (host inspect) n h =
      ground (arith, denied myself ("admin" ∷ "listhosts" ∷ []) h)
  run_command-Refused (host ls) n h = ground (arith, denied myself ("admin" ∷ "listhosts" ∷ []) h)
  run_command-Refused (host_group create) n h = ground (arith, denied myself ("admin" ∷ []) h)
  run_command-Refused (user_group create) n h = ground (arith, denied myself ("admin" ∷ []) h)
  run_command-Refused (user create) n h = ground (arith, denied myself ("admin" ∷ []) h)
  run_command-Refused key_install n h = absurd (cc)
  run_command-Refused key_print n h = absurd (cc)
  run_command-Refused version n h = absurd (cc)
  run_command-Refused exit n h = absurd (cc)
  run_command-Refused _ n h = ground (arith, denied myself ("admin" ∷ []) h)
