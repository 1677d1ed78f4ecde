-- ===== src/Shell/Run.antt =====
-- The tree of commands, and the two ways in which `shell` runs them: a line at a time, or one command
-- given with the connection. The parser of command lines is a library's, and a parameter.
use sshportal.Base.{
  ℕ, String, Bool, true, false, ◌&&◌, Option, none, some, List, [], ◌∷◌, length, eqb, ◌==◌,
  if◌then◌else◌, Result, ok, err,
}
use sshportal.Models.{User}
use sshportal.Lookup.{flag, texts, new_event, set_author, set_arg, encoded}
use sshportal.Shell.Store.{Gorm, Backup}
use sshportal.Shell.Actions.{
  Context, Env, ShellError, message, Reply, help, line, Action, ◌>>◌, pure, require, admin,
}
use sshportal.Shell.Acls.{acl_create, acl_inspect, acl_ls, acl_rm, acl_update}
use sshportal.Shell.Hosts.{host_create, host_inspect, host_ls, host_rm, host_update}
use sshportal.Shell.Groups.{
  host_group_create, host_group_inspect, host_group_ls, host_group_rm, host_group_update,
  user_group_create, user_group_inspect, user_group_ls, user_group_rm, user_group_update,
}
use sshportal.Shell.Keys.{key_create, key_import, key_inspect, key_ls, key_rm, key_setup, key_show}
use sshportal.Shell.Users.{
  ReadEnd, user_inspect, user_invite, user_ls, user_rm, user_update, user_key_create,
  user_key_inspect, user_key_ls, user_key_rm,
}
use sshportal.Shell.Sessions.{session_inspect, session_ls, event_inspect, event_ls}
use sshportal.Shell.Config.{config_backup, config_restore}

-- the five verbs of most of the commands; `user create` is `user invite`
pub data Verb : Type 0 where
  create inspect ls rm update : Verb

-- a command, with what it reads from the connection
pub data Command : Type 0 where
  acl host host_group user_group user : Verb → Command
  key_new key_look key_list key_remove key_install key_print : Command
  key_paste : List String → String → Command
  user_key_look user_key_list user_key_remove : Command
  user_key_new : List (String × ReadEnd) → Command
  session_look session_list event_look event_list : Command
  backup info version exit : Command
  restore : Result String Backup → Command

module _ {S : Type 0} (g : Gorm S) (env : Env) (myself : User) where
  unfoldable pub run_command : Command → Context → Action S Reply
  unfolding require
  run_command (acl create) c = acl_create g env myself c
  run_command (acl inspect) c = acl_inspect g env myself c
  run_command (acl ls) c = acl_ls g env myself c
  run_command (acl rm) c = acl_rm g env myself c
  run_command (acl update) c = acl_update g env myself c
  run_command (host create) c = host_create g env myself c
  run_command (host inspect) c = host_inspect g env myself c
  run_command (host ls) c = host_ls g env myself c
  run_command (host rm) c = host_rm g env myself c
  run_command (host update) c = host_update g env myself c
  run_command (host_group create) c = host_group_create g env myself c
  run_command (host_group inspect) c = host_group_inspect g env myself c
  run_command (host_group ls) c = host_group_ls g env myself c
  run_command (host_group rm) c = host_group_rm g env myself c
  run_command (host_group update) c = host_group_update g env myself c
  run_command (user_group create) c = user_group_create g env myself c
  run_command (user_group inspect) c = user_group_inspect g env myself c
  run_command (user_group ls) c = user_group_ls g env myself c
  run_command (user_group rm) c = user_group_rm g env myself c
  run_command (user_group update) c = user_group_update g env myself c
  run_command (user create) c = user_invite g env myself c
  run_command (user inspect) c = user_inspect g env myself c
  run_command (user ls) c = user_ls g env myself c
  run_command (user rm) c = user_rm g env myself c
  run_command (user update) c = user_update g env myself c
  run_command key_new c = key_create g env myself c
  run_command (key_paste lines end) c = key_import g env myself c lines end
  run_command key_look c = key_inspect g env myself c
  run_command key_list c = key_ls g env myself c
  run_command key_remove c = key_rm g env myself c
  run_command key_install c = key_setup g env myself c
  run_command key_print c = key_show g env myself c
  run_command (user_key_new lines) c = user_key_create g env myself c lines
  run_command user_key_look c = user_key_inspect g env myself c
  run_command user_key_list c = user_key_ls g env myself c
  run_command user_key_remove c = user_key_rm g env myself c
  run_command session_look c = session_inspect g env myself c
  run_command session_list c = session_ls g env myself c
  run_command event_look c = event_inspect g env myself c
  run_command event_list c = event_ls g env myself c
  run_command backup c = config_backup g env myself c
  run_command (restore decoded) c = config_restore g env myself c decoded
  run_command info c = do require myself admin; pure (line env.info)
  run_command version c = pure (line env.version)
  run_command exit c = pure (line "")

  -- NewEvent, SetAuthor, SetArg twice and Log, whose errors are logged
  unfoldable pub log_command : Bool → String → List String → S → S
  unfolding new_event set_author set_arg encoded
  log_command interactive name args s =
      let e =
        set_arg "args" (texts args)
          (set_arg "interactive" (flag interactive) (set_author myself (new_event "shell" name))) in
      elim (g.events.create (encoded env.marshal_args e) s) [ ok p ↦ p.1 | err _ ↦ s ]

  -- app.Run: what the parser makes of the words is run, or help is shown
  unfoldable pub app_run : (List String → Option (Command × Context)) → List String → Action S Reply
  unfolding run_command
  app_run parse words s = elim (parse words) [
    | none ↦ (ok help, s)
    | some (command, c) ↦ run_command command c s
  ]

  -- one line of the interactive mode, as shlex splits it; `none` is the return of the loop
  unfoldable pub interactive_line :
      (List String → Option (Command × Context))
      → Result String (List String)
      → S
      → Option (Option (Result ShellError Reply)) × S
  unfolding log_command app_run
  interactive_line parse (err e) s = (some (some (err (message "syntax error."))), s)
  interactive_line parse (ok []) s = (some none, s)
  interactive_line parse (ok (w ∷ ws)) s =
      if eqb (length ws) 0 && env.lower w == "exit"
      then (none, s)
      else let (r, s') = app_run parse (w ∷ ws) (log_command true w ws s) in (some (some r), s')

  unfoldable pub interactive :
      (List String → Option (Command × Context))
      → List (Result String (List String))
      → S
      → List (Result ShellError Reply) × S
  unfolding interactive_line
  interactive parse [] s = ([], s)
  interactive parse (l ∷ lines) s =
      let (out, s') = interactive_line parse l s in
      elim out [
        | none ↦ ([], s')
        | some none ↦ interactive parse lines s'
        | some (some r) ↦ let rest = interactive parse lines s' in (r ∷ rest.0, rest.1)
      ]

  -- the oneshot mode, with the status of its exit
  unfoldable pub one_shot :
      (List String → Option (Command × Context))
      → String
      → List String
      → S
      → ℕ × Result ShellError Reply × S
  unfolding log_command app_run
  one_shot parse w ws s =
      let (r, s') = app_run parse (w ∷ ws) (log_command false w ws s) in
      (elim r [ ok _ ↦ 0 | err _ ↦ 1 ], r, s')

-- what is opened for a property of all commands
unfoldable pub commands : Unit {0}
unfolding run_command acl_create acl_inspect acl_ls acl_rm acl_update host_create host_inspect
    host_ls host_rm host_update host_group_create host_group_inspect host_group_ls host_group_rm
    host_group_update user_group_create user_group_inspect user_group_ls user_group_rm
    user_group_update user_invite user_inspect user_ls user_rm user_update key_create key_import
    key_inspect key_ls key_rm key_setup key_show user_key_create user_key_inspect user_key_ls
    user_key_rm session_inspect session_ls event_inspect event_ls config_backup config_restore
commands = tt
