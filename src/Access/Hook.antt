-- ===== src/Access/Hook.antt =====
-- checkACLsHook and checkACLs of pkg/bastion/acl.go. Running the command and marshalling to JSON are
-- a parameter; the 2 second timeout shows as `deadline_exceeded`.
use Prim.Native.String.{[] as nil, ◌∷◌ as cons}
use mathlib.Core.Bool.{Bool}
use sshportal.Base.{
  ℕ, String, code, Option, none, some, List, [], ◌∷◌, eqb, ◌==◌, if◌then◌else◌, Result, ok, err,
}
use sshportal.Models.{User, Host, action_allow, action_deny}
use sshportal.Access.Acls.{Runtime, acl_map, select_action}

pub data HookError : Type 0 where
  marshal : HookError
  command : HookError
  timed_out : HookError
  wrong_output : String → HookError

-- what `cmd.Output()` and then `ctx.Err()` return
pub record Run : Type 0 where
  pub output : Result (Unit {0}) String
  pub deadline_exceeded : Bool

pub record HookEnv : Type 0 where
  pub marshal_user : User → Result (Unit {0}) String
  pub marshal_host : Host → Result (Unit {0}) String
  pub execute : String → List String → Run

-- strings.TrimSuffix(s, "\n")
unfoldable pub trim_newline : String → String
trim_newline nil = nil
trim_newline (cons c nil) = if eqb (code c) 10 then nil else cons c nil
trim_newline (cons c (cons d s)) = cons c (trim_newline (cons d s))

-- the final `switch outStr`
unfoldable pub read_answer : String → String → String × Option HookError
read_answer action out =
    if out == action_allow
    then (action_allow, none)
    else if out == action_deny
    then (action_deny, none)
    else (action, some (wrong_output out))

unfoldable pub finish : String → Run → String × Option HookError
unfolding read_answer trim_newline
finish action run = elim run.output [
  | err _ ↦ (action, some command)
  | ok out ↦
      if run.deadline_exceeded
      then (action, some timed_out)
      else read_answer action (trim_newline out)
]

unfoldable pub check_hook : HookEnv → String → String → User → Host → String × Option HookError
unfolding finish
check_hook env cmd action user host =
    if cmd == "" then (action, none) else elim (env.marshal_user user) [
      | err _ ↦ (action, some marshal)
      | ok json_user ↦ elim (env.marshal_host host) [
        | err _ ↦ (action, some marshal)
        | ok json_host ↦ finish action (env.execute cmd (action ∷ json_user ∷ json_host ∷ []))
      ]
    ]

-- the error is logged, and the action is returned
unfoldable pub check_acls : Runtime → HookEnv → ℕ → User → Host → String → String
check_acls rt env now user host cmd =
    (check_hook env cmd (select_action rt (acl_map now user host)) user host).0
