-- ===== src/Server/Run.antt =====
-- `server`, server.go. The state of the database is S, a private key P, and a duration D.
use sshportal.Base.{ℕ, String, ◌<>◌, Bool, true, false, Option, none, some, if◌then◌else◌, ok, err}
use sshportal.Auth.{Config}
use sshportal.Migrations.{Migrator}
use sshportal.Startup.{Surroundings, Opened, InitError, db_init}
use sshportal.Server.Config.{ServerConfig, Driver, db_open}
use sshportal.Server.HostKey.{KeySource, private_key_from_db}
use sshportal.Server.Handlers.{Build}

pub data ServerError : Type 0 where
  no_ping no_listener no_host_key not_closed stopped_serving : String → ServerError
  not_initialised : InitError → ServerError

-- ssh.Server as it is configured; the channel handlers are ChannelHandler and DefaultChannelHandler
pub record Portal (P D : Type 0) : Type 0 where
  pub addr : String
  pub version : String
  pub build : Build
  -- IdleTimeout, and whether MaxTimeout is the largest duration
  pub idle_timeout : Option D
  pub max_timeout : Bool
  -- what both handlers of authentication are given
  pub auth : Config
  pub host_key : P

pub record Platform (S P D : Type 0) : Type 0 where
  -- gorm.Open and DB: the handle; `none` is the nil one that comes with an error
  pub open_db : Driver → String → Option S
  pub ping : S → Option String
  pub close : S → Option String
  pub listen : String → Option String
  pub migrator : Migrator S
  -- the version that the migrations table records
  pub version : S → ℕ
  pub opened : Opened S
  pub surroundings : Surroundings
  pub keys : KeySource P
  pub is_zero : D → Bool
  -- Serve returns the error that ends it
  pub serve : Portal P D → S → String

pub data Ran (S P D : Type 0) : Type 0 where
  panicked : Ran S P D
  -- what is returned without serving
  refused : Option ServerError → Ran S P D
  -- with what is returned in the end
  serving : Portal P D → S → Option ServerError → Ran S P D

-- the deferred closing: the error that was there before comes first
unfoldable pub closing : Option ServerError → Option String → Option ServerError
closing (some e) closed = some e
closing none none = none
closing none (some e) = some (not_closed e)

module _ {S P D : Type 0} (on : Platform S P D) (git_tag git_sha : String) where
  unfoldable pub portal : ServerConfig D → P → Portal P D
  portal c key = record {
    addr = c.bind_addr;
    version = "sshportal-" <> git_tag;
    build = record { version = git_tag; git_sha = git_sha; git_tag = git_tag };
    idle_timeout = if on.is_zero c.idle_timeout then none else some c.idle_timeout;
    max_timeout = if on.is_zero c.idle_timeout then false else true;
    auth = record {
      logs_location = c.logs_location;
      acl_check_cmd = c.acl_check_cmd;
      aes_key = c.aes_key;
      db_driver = c.db_driver;
      db_url = c.db_url;
      bind_addr = c.bind_addr;
      demo = c.demo;
    };
    host_key = key;
  }

  unfoldable pub stopped_by : S → ServerError → Ran S P D
  unfolding closing
  stopped_by s e = refused (closing (some e) (on.close s))

  -- behind the listener: the options, of which the last reads the host key, and Serve
  unfoldable pub with_options : ServerConfig D → S → Ran S P D
  unfolding private_key_from_db stopped_by portal closing
  with_options c s = elim (private_key_from_db on.keys on.opened.gorm.ssh_keys c.aes_key s) [
    | err e ↦ stopped_by s (no_host_key e)
    | ok key ↦
        let srv = portal c key in
        serving srv s (closing (some (stopped_serving (on.serve srv s))) (on.close s))
  ]

  unfoldable pub listening : ServerConfig D → S → Ran S P D
  unfolding with_options stopped_by
  listening c s = elim (on.listen c.bind_addr) [
    | some e ↦ stopped_by s (no_listener e)
    | none ↦ with_options c s
  ]

  unfoldable pub initialised : ServerConfig D → S → Ran S P D
  unfolding listening stopped_by
  initialised c s = elim (db_init on.opened on.surroundings on.migrator (on.version s) s) [
    | err e ↦ stopped_by s (not_initialised e)
    | ok s' ↦ listening c s'
  ]

  unfoldable pub connected : ServerConfig D → Option S → Ran S P D
  unfolding initialised stopped_by
  connected c none = panicked
  connected c (some s) = elim (on.ping s) [
    | some e ↦ stopped_by s (no_ping e)
    | none ↦ initialised c s
  ]

  unfoldable pub server : ServerConfig D → Ran S P D
  unfolding db_open connected
  server c = elim (db_open c.db_driver) [
    | none ↦ panicked
    | some driver ↦ connected c (on.open_db driver c.db_url)
  ]
