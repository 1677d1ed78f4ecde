-- ===== src/Server/Flags.antt =====
-- The subcommands of main.go with their flags, and what they run. The parsing of the command line is a
-- library's; durations are of type D.
use sshportal.Base.{String, Bool, true, false, Option, none, some, List, [], ◌∷◌, Result, err}
use sshportal.Models.{Bytes}
use sshportal.Server.Config.{
  CommandLine, ServerConfig, parse_server_config, Stat, ensure_log_directory,
}

-- the default of a flag: a text, the zero duration, or none for a switch
pub data Default : Type 0 where
  text : String → Default
  switch no_time : Default

pub record Flag : Type 0 where
  -- with the short name
  pub name : String
  pub env_var : Option String
  pub value : Default
  pub usage : String

pub record Subcommand : Type 0 where
  pub name : String
  pub hidden : Bool
  pub flags : List Flag

abbrev flag : String → Option String → Default → String → Flag
flag name env_var value usage = record {
  name = name;
  env_var = env_var;
  value = value;
  usage = usage;
}

unfoldable pub server_flags : List Flag
server_flags =
    flag "bind-address, b" (some "SSHPORTAL_BIND") (text ":2222") "SSH server bind address"
    ∷ flag "db-driver" (some "SSHPORTAL_DB_DRIVER") (text "sqlite3") "GORM driver (sqlite3)"
    ∷ flag "db-conn" (some "SSHPORTAL_DATABASE_URL") (text "./sshportal.db")
        "GORM connection string"
    ∷ flag "debug, D" (some "SSHPORTAL_DEBUG") switch "Display debug information"
    ∷ flag "aes-key" (some "SSHPORTAL_AES_KEY") (text "")
        "Encrypt sensitive data in database (length: 16, 24 or 32)"
    ∷ flag "logs-location" (some "SSHPORTAL_LOGS_LOCATION") (text "./log")
        "Store user session files"
    ∷ flag "idle-timeout" none no_time
        "Duration before an inactive connection is timed out (0 to disable)"
    ∷ flag "acl-check-cmd" (some "SSHPORTAL_ACL_CHECK_CMD") (text "")
        "Execute external command to check ACL"
    ∷ []

unfoldable pub healthcheck_flags : List Flag
healthcheck_flags =
    flag "addr, a" none (text "localhost:2222") "sshportal server address"
    ∷ flag "wait, w" none switch "Loop indefinitely until sshportal is ready"
    ∷ flag "quiet, q" none switch "Do not print errors, if any"
    ∷ []

unfoldable pub subcommands : List Subcommand
unfolding server_flags healthcheck_flags
subcommands =
    record { name = "server"; hidden = false; flags = server_flags }
    ∷ record { name = "healthcheck"; hidden = false; flags = healthcheck_flags }
    ∷ record { name = "_test_server"; hidden = true; flags = [] }
    ∷ []

-- the action of `server` up to the call of server()
unfoldable pub server_command :
    {D : Type 0}
    → (String → Bytes)
    → (String → Stat)
    → (String → Option String)
    → CommandLine D
    → Result String (ServerConfig D)
unfolding parse_server_config ensure_log_directory
server_command bytes stat mkdir_all c =
    elim (ensure_log_directory stat mkdir_all (c.string "logs-location")) [
      | some e ↦ err e
      | none ↦ parse_server_config bytes c
    ]
