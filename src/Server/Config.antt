-- ===== src/Server/Config.antt =====
-- parseServerConfig, ensureLogDirectory and the choice of dbConnect, server.go.
use sshportal.Base.{
  ℕ, String, Bool, ◌||◌, Option, none, some, length, eqb, ◌==◌, if◌then◌else◌, Result, ok, err,
}
use sshportal.Models.{Bytes}

-- *cli.Context, the values of the flags by name; D is the type of durations
pub record CommandLine (D : Type 0) : Type 0 where
  pub string : String → String
  pub bool : String → Bool
  pub duration : String → D

pub record ServerConfig (D : Type 0) : Type 0 where
  pub aes_key : String
  pub db_driver : String
  pub db_url : String
  pub logs_location : String
  pub bind_addr : String
  pub debug : Bool
  pub demo : Bool
  pub idle_timeout : D
  pub acl_check_cmd : String

abbrev pub is_key_size : ℕ → Bool
is_key_size n = eqb n 0 || eqb n 16 || eqb n 24 || eqb n 32

-- `bytes` are those of a Go string, whose number is its `len`
unfoldable pub parse_server_config :
    {D : Type 0} → (String → Bytes) → CommandLine D → Result String (ServerConfig D)
parse_server_config {D} bytes c =
    let ret : ServerConfig D = record {
      aes_key = c.string "aes-key";
      db_driver = c.string "db-driver";
      db_url = c.string "db-conn";
      bind_addr = c.string "bind-address";
      debug = c.bool "debug";
      demo = c.bool "demo";
      logs_location = c.string "logs-location";
      idle_timeout = c.duration "idle-timeout";
      acl_check_cmd = c.string "acl-check-cmd";
    } in
    if is_key_size (length (bytes ret.aes_key))
    then ok ret
    else err "invalid aes key size, should be 16 or 24, 32"

-- what os.Stat says of a path
pub data Stat : Type 0 where
  directory other_file not_exist : Stat
  no_stat : String → Stat

-- the error, if there is one; MkdirAll's is a parameter
unfoldable pub ensure_log_directory :
    (String → Stat) → (String → Option String) → String → Option String
ensure_log_directory stat mkdir_all location = elim (stat location) [
  | directory ↦ none
  | other_file ↦ some "log directory cannot be created"
  | not_exist ↦ mkdir_all location
  | no_stat e ↦ some e
]

pub data Driver : Type 0 where
  sqlite postgres mysql : Driver

-- dbOpen; `none` is the nil function, whose call panics
unfoldable pub db_open : String → Option Driver
db_open driver =
    if driver == "mysql"
    then some mysql
    else if driver == "postgres"
    then some postgres
    else if driver == "sqlite3"
    then some sqlite
    else none
