-- ===== src/Shell/Atomic.antt =====
-- Which commands change the database, and when; and what is recorded of them.
use sshportal.Base.{
  String, ◌≡◌, Bool, true, false, Option, List, [], ◌∷◌, ◌++◌, ◌⊎◌, arith, Result, ok, err,
}
use sshportal.Lookup.{Event, flag, texts, encoded}
use sshportal.Models.{User}
use sshportal.Shell.Store.{Gorm}
use sshportal.Shell.Actions.{Context, Env, ShellError}
use sshportal.Shell.Run.{
  Command, acl, host, host_group, user_group, user, create, inspect, ls, key_look, key_list,
  key_install, key_print, user_key_look, user_key_list, user_key_new, session_look, session_list,
  event_look, event_list, backup, info, version, exit, run_command, commands,
}

-- the state stays as it was at least if there is an error
abbrev pub Kept : {S A : Type 0} → S → Result ShellError A × S → Type 0
Kept s (ok _, s') = Unit
Kept s (err _, s') = s' ≡ s

-- the commands that only read
abbrev pub reads : Command → Bool
reads (acl inspect) = true
reads (acl ls) = true
reads (host inspect) = true
reads (host ls) = true
reads (host_group inspect) = true
reads (host_group ls) = true
reads (user_group inspect) = true
reads (user_group ls) = true
reads (user inspect) = true
reads (user ls) = true
reads key_look = true
reads key_list = true
reads key_install = true
reads key_print = true
reads user_key_look = true
reads user_key_list = true
reads session_look = true
reads session_list = true
reads event_look = true
reads event_list = true
reads backup = true
reads info = true
reads version = true
reads exit = true
reads _ = false

-- `userkey create` saves the keys one by one
abbrev pub is_atomic : Command → Bool
is_atomic (user_key_new _) = false
is_atomic _ = true

module _ {S : Type 0} (g : Gorm S) (env : Env) (myself : User) (c : Context) (s : S) where
  -- A command that ends in an error leaves the database as it was, the updates of many rows and the
  -- restoring of a backup included; `userkey create` is the exception. What is written inside a
  -- transaction that is left open does not count.
  pub run_command-Kept :
      (command : Command) → is_atomic command ≡ true → Kept s (run_command g env myself command c s)
  unfolding commands
  run_command-Kept (acl create) h = ground arith
  run_command-Kept (host create) h = ground arith
  run_command-Kept (host_group create) h = ground arith
  run_command-Kept (user_group create) h = ground arith
  run_command-Kept (user create) h = ground arith
  run_command-Kept _ h = ground arith

module _ {S : Type 0} (g : Gorm S) (env : Env) (myself : User)
    (parse : List String → Option (Command × Context)) where
  -- the event of a command line, before it is stored
  abbrev pub shell_event : Bool → String → List String → Event
  shell_event interactive w ws = encoded env.marshal_args (record {
    id = 0;
    author_id = myself.id;
    domain = "shell";
    action = w;
    entity = "";
    args = "";
    args_map = ("interactive", flag interactive) ∷ ("args", texts ws) ∷ [];
  })

  -- from one state to another that event is all that is added, or nothing, where it is refused
  abbrev pub Recorded : Event → S → S → Type 0
  Recorded e s s' =
      ((x : String) × (g.events.create e s ≡ err x) × (s' ≡ s))
      ⊎ ((e' : Event) × (g.events.create e s ≡ ok (e', s'))
          × (g.events.rows s'
              ≡ g.events.rows s ++ g.events.with_id (g.events.columns e').id e ∷ []))
