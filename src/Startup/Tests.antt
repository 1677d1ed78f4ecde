-- ===== src/Startup/Tests.antt =====
-- Examples of the theorems on the start, over a database of lists.
use sshportal.Base.{
  ℕ, String, Option, some, eqb, ◌≡◌, refl, false, none, [], ◌∷◌, any, filter, Result, ok, err,
}
use sshportal.Models.{UserRole, Session}
use sshportal.Crypto.Keys.{new_ssh_key, key_pair}
use sshportal.Lookup.{new_event, encoded}
use sshportal.Migrations.{migrate, migrate_step, each}
use sshportal.Migrations.History.{
  migrations, tables_first, indexes, roles, sessions_and_keys, host_fields,
}
use sshportal.Startup.{
  Surroundings, letter, rand_string_bytes, is_active, admin_name, ensure, fresh_key, default_acl,
  default_host_group, default_user_group, first_admin, seed_rows, close_sessions, log_migrated,
  db_init, InitError, halted,
}
use sshportal.Startup.Ensure.{Established}
use sshportal.Startup.Seeding.{seed_idle, db_init-Established}
use sshportal.Startup.Toy.{opened, apart, idle}
use sshportal.Shell.Toy.{Db, db}
use sshportal.Crypto.Toy.{toy}
use sshportal.Server.Config.{ServerConfig, db_open}
use sshportal.Server.Run.{
  Platform, Portal, ServerError, stopped_serving, serving, portal, closing, connected, initialised,
  listening, with_options, server,
}
use sshportal.Strconv.{is_int}
use sshportal.Server.HostKey.{is_host_key, private_key_from_db}
use sshportal.Crypto.{ssh_key_decrypt}
use sshportal.Server.Start.{Serving, server_serves}

abbrev admin_role : UserRole
admin_role = record { id = 1; name = "admin" }

abbrev left_open : Session
left_open = record {
  id = 1;
  stopped_at = none;
  status = "active";
  user_id = 1;
  host_id = 1;
  err_msg = "";
  comment = "";
}

abbrev migrated : Db
migrated = record {
  acl_rows = [];
  host_rows = [];
  host_group_rows = [];
  user_group_rows = [];
  user_rows = [];
  user_key_rows = [];
  ssh_key_rows = [];
  role_rows = admin_role ∷ [];
  session_rows = left_open ∷ [];
  event_rows = [];
}

abbrev env : Surroundings
env = record {
  generators = record {
    rsa = λ _. err "no entropy";
    ecdsa = λ _. err "no entropy";
    ed25519 = ok ("pem", "pub");
  };
  draw = λ i. ok i;
  token_variable = "";
  user_variable = "ROOT";
  current_user = err "no cgo";
  lower = λ s. s;
  marshal_args = λ _. ok "{}";
}

steps : Unit {0}
unfolding opened db idle migrate migrate_step each migrations tables_first indexes roles
    sessions_and_keys host_fields new_ssh_key key_pair new_event encoded letter rand_string_bytes
    admin_name ensure fresh_key default_acl default_host_group default_user_group first_admin
    seed_rows close_sessions log_migrated db_init halted any filter
steps = tt

abbrev reached : Result InitError Db → Db
reached (ok s) = s
reached (err _) = migrated

unfoldable started : Db
started = reached (db_init opened env idle 32 migrated)

start_succeeds : db_init opened env idle 32 migrated ≡ ok started
unfolding steps started
start_succeeds = refl

seeded_again : seed_rows opened env started ≡ ok started
unfolding steps started
seeded_again = refl

started-Established : Established opened started
unfolding steps started
started-Established = (refl, refl, refl, refl, refl, refl)

first_token : rand_string_bytes env.draw 3 ≡ ok "abc"
unfolding steps
first_token = refl

seed_idle_example : started ≡ started
seed_idle_example = seed_idle opened env started started started-Established seeded_again

db_init-Established_example :
    Established opened started × (any is_active (opened.gorm.sessions.rows started) ≡ false)
db_init-Established_example =
    db_init-Established opened env apart idle 32 migrated started start_succeeds

-- The server over it, whose keys are texts.
abbrev platform : Platform Db String ℕ
platform = record {
  open_db = λ _ _. some migrated;
  ping = λ _. none;
  close = λ _. none;
  listen = λ _. none;
  migrator = idle;
  version = λ _. 32;
  opened = opened;
  surroundings = env;
  keys = record { suite = toy; same = λ _ _. false; parse_private_key = λ pem. ok pem };
  is_zero = λ d. eqb d 0;
  serve = λ _ _. "closed";
}

abbrev server_config : ServerConfig ℕ
server_config = record {
  aes_key = "";
  db_driver = "sqlite3";
  db_url = "./sshportal.db";
  logs_location = "./log";
  bind_addr = ":2222";
  debug = false;
  demo = false;
  idle_timeout = 0;
  acl_check_cmd = "";
}

unfoldable served : Portal String ℕ
unfolding portal
served = portal platform "v1" "0a" server_config "pem"

serves :
    server platform "v1" "0a" server_config
    ≡ serving served started (some (stopped_serving "closed"))
unfolding server connected initialised listening with_options private_key_from_db closing db_open
    steps started is_host_key ssh_key_decrypt is_int served
serves = refl

server_serves_example :
    (b : Serving platform "v1" "0a" server_config served started) × (b.key.name ≡ "host")
    × Established opened started
    × (any is_active (opened.gorm.sessions.rows started) ≡ false)
    × (served.addr ≡ ":2222")
    × (served.auth.aes_key ≡ "")
    × (◌≡◌ {A = Option ServerError}
        (some (stopped_serving "closed"))
        (some (stopped_serving "closed")))
unfolding opened db
server_serves_example =
    server_serves platform "v1" "0a" server_config apart (λ k. refl) served started
      (some (stopped_serving "closed")) serves
