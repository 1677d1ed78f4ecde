-- ===== src/Shell/Config.antt =====
-- The commands `config backup` and `config restore`. The JSON coding of a backup is a parameter.
use sshportal.Base.{
  ℕ, String, Bool, true, false, Option, none, some, List, [], ◌∷◌, if◌then◌else◌, Result, ok, err,
}
use sshportal.Base
use sshportal.Models.{User, SshKey, Host}
use sshportal.Crypto.{CryptoError, host_encrypt, host_decrypt, ssh_key_encrypt, ssh_key_decrypt}
use sshportal.Shell.Store.{Table, Gorm, Backup}
use sshportal.Shell.Actions.{
  Context, Env, ShellError, message, not_encrypted, not_read, Reply, backup, Action, ◌>>=◌, ◌>>◌,
  pure, try, query, lift, guard, require, admin, Failure, or_rollback, or_abandon, transaction,
  for_each,
}

abbrev pub outcome : {A : Type 0} → A × Option CryptoError → Result ShellError A
outcome (a, none) = ok a
outcome (a, some e) = err (not_encrypted e)

-- the tables that a restore empties; `migrations` is not among them
abbrev pub table_names : List String
table_names =
    "acls" ∷ "events" ∷ "host_group_acls" ∷ "host_groups" ∷ "host_host_groups" ∷ "hosts"
    ∷ "sessions" ∷ "settings" ∷ "ssh_keys" ∷ "user_group_acls" ∷ "user_groups" ∷ "user_keys"
    ∷ "user_roles" ∷ "user_user_groups" ∷ "user_user_roles" ∷ "users" ∷ []

-- a loop of conversions that stops at the first error
unfoldable pub convert :
    {A B : Type 0} → (A → Result ShellError B) → List A → Result ShellError (List B)
convert f [] = ok []
convert f (a ∷ l) = Base.◌>>=◌ (f a) (λ b. Base.◌>>=◌ (convert f l) (λ bs. ok (b ∷ bs)))

module _ {S : Type 0} (g : Gorm S) (env : Env) (myself : User) (c : Context) where
  -- decrypted, and encrypted again unless the flag `decrypt` is given
  unfoldable pub recode_host : Host → Result ShellError Host
  recode_host host =
      let plain = host_decrypt env.suite env.aes_key host in
      if c.bool "decrypt"
      then ok plain
      else outcome (host_encrypt env.suite (env.entropy plain.id) env.aes_key plain)

  unfoldable pub recode_key : SshKey → Result ShellError SshKey
  recode_key key =
      let plain = ssh_key_decrypt env.suite env.aes_key key in
      if c.bool "decrypt"
      then ok plain
      else outcome (ssh_key_encrypt env.suite (env.entropy plain.id) env.aes_key plain)

  abbrev every_row : {R : Type 0} → Table S R → Action S (List R)
  every_row t = query (t.find (λ _. true))

  -- the reply is what the encoder is given
  unfoldable pub config_backup : Action S Reply
  unfolding require recode_host recode_key convert
  config_backup = do
    require myself admin
    hosts_first ← every_row g.hosts
    keys ← every_row g.ssh_keys
    ssh_keys ← lift (convert recode_key keys)
    rows ← every_row g.hosts
    hosts ← lift (convert recode_host rows)
    user_keys ← every_row g.user_keys
    users ← every_row g.users
    user_groups ← every_row g.user_groups
    host_groups ← every_row g.host_groups
    acls ← every_row g.acls
    settings ← query g.settings
    sessions ← every_row g.sessions
    events ← (if c.bool "ignore-events" then pure [] else every_row g.events)
    pure (
        backup (record {
          ssh_keys = ssh_keys;
          hosts = hosts;
          user_keys = user_keys;
          users = users;
          user_groups = user_groups;
          host_groups = host_groups;
          acls = acls;
          settings = settings;
          events = events;
          sessions = sessions;
          date = env.now;
        }))

  -- a row of the backup; an encryption that fails returns without a rollback
  abbrev restored : {R : Type 0} → (R → S → Result String S) → R → S → Result Failure S
  restored put r t = or_rollback (put r t)

  unfoldable pub restore_one_host : Host → S → Result Failure S
  unfolding recode_host
  restore_one_host host t =
      Base.◌>>=◌ (or_abandon (recode_host host)) (λ h. or_rollback (g.restore_host h t))

  unfoldable pub restore_one_key : SshKey → S → Result Failure S
  unfolding recode_key
  restore_one_key key t =
      Base.◌>>=◌ (or_abandon (recode_key key)) (λ k. or_rollback (g.restore_ssh_key k t))

  infixl 5 ◌then_all◌
  abbrev ◌then_all◌ : Result Failure S → (S → Result Failure S) → Result Failure S
  m then_all f = Base.◌>>=◌ m f

  unfoldable pub restore_all : Backup → S → Result Failure S
  unfolding for_each restore_one_host restore_one_key
  restore_all config t =
      for_each table_names (λ name. restored g.clear name) t
      then_all for_each config.hosts restore_one_host
      then_all for_each config.users (restored g.restore_user)
      then_all for_each config.acls (restored g.restore_acl)
      then_all for_each config.host_groups (restored g.restore_host_group)
      then_all for_each config.user_groups (restored g.restore_user_group)
      then_all for_each config.ssh_keys restore_one_key
      then_all for_each config.user_keys (restored g.restore_user_key)
      then_all for_each config.settings (restored g.restore_setting)
      then_all for_each config.sessions (restored g.restore_session)
      then_all for_each config.events (restored g.restore_event)

  -- given what the decoder makes of the input; the counts that are printed are left out
  unfoldable pub config_restore : Result String Backup → Action S Reply
  unfolding require transaction restore_all
  config_restore decoded = do
    require myself admin
    config ← try not_read decoded
    guard (c.bool "confirm") (message "")
    transaction g (λ _. restore_all config)
