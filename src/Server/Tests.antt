-- ===== src/Server/Tests.antt =====
-- Examples of the commands' theorems.
use sshportal.Base.{
  ℕ, zero, suc, ◌<◌, map, ◌⊎◌, inl, inr, ◌≡◌, ◌≢◌, refl, String, true, false, Option, none, some,
  [], ◌∷◌, length, ltb, ◌==◌, if◌then◌else◌, ok, arith,
}
use sshportal.Models.{Host, SshKey}
use sshportal.Auth.{AuthContext, Config, password_auth}
use sshportal.Crypto.{host_encrypt, ssh_key_encrypt}
use sshportal.Crypto.Toy.{toy, toy_block, toy_cipher-takes, repeat}
use sshportal.Server.Config.{CommandLine, ServerConfig, parse_server_config}
use sshportal.Server.Flags.{Flag, server_flags}
use sshportal.Server.Handlers.{Build, shell_handler}
use sshportal.Server.Health.{Probe, success, healthcheck_once, wait_loop, healthcheck}
use sshportal.Server.Alive.{healthcheck_waits}
use sshportal.Server.Keys.{accepted_key_encrypts}

abbrev build : Build
build = record { version = "v1"; git_sha = "0a"; git_tag = "v1" }

abbrev config : Config
config = record {
  logs_location = "./log";
  acl_check_cmd = "";
  aes_key = "";
  db_driver = "sqlite3";
  db_url = "./sshportal.db";
  bind_addr = ":2222";
  demo = false;
}

abbrev no_shell : AuthContext → Build → Option String
no_shell ctx b = none

-- the portal comes up after two attempts
abbrev attempts : ℕ → Probe String
attempts n = record {
  connect = if ltb n 2 then some "refused" else none;
  run = ok "OK\n";
  trim_space = λ s. if s == "OK\n" then "OK" else s;
}

too_early : (i : ℕ) → i < 2 → healthcheck_once (attempts i) ≢ none
unfolding healthcheck_once
too_early zero lt = λ e. absurd (ground arith)
too_early (suc zero) lt = λ e. absurd (ground arith)
too_early (suc (suc n)) lt = absurd (omega arith)

healthcheck_waits_example :
    ((password_auth config "healthcheck").auth_success ≡ true)
    × ((healthcheck 5 attempts true false).0 ≡ some success)
    × ((wait_loop 5 attempts false).seconds ≡ 2)
    × (length (healthcheck 5 attempts true false).1 ≡ (if false then 0 else 2))
    × (healthcheck 5 (λ _. attempts 2) false false ≡ (some success, []))
unfolding shell_handler password_auth
healthcheck_waits_example =
    healthcheck_waits no_shell build config attempts false 2 5 (omega arith) too_early
      (record { connected = refl; text = "OK\n"; written = refl; read = refl; trimmed = refl })

sized : (n : ℕ) → (n ≡ 16) ⊎ ((n ≡ 24) ⊎ (n ≡ 32)) → ltb n 16 ≡ false
sized n (inl h) = ground arith
sized n (inr (inl h)) = ground arith
sized n (inr (inr h)) = ground arith

-- a key that is 24 bytes there
abbrev flags : CommandLine ℕ
flags = record {
  string = λ name. if name == "aes-key" then "\t\r" else "";
  bool = λ _. false;
  duration = λ _. 0;
}

abbrev parsed : ServerConfig ℕ
parsed = record {
  aes_key = "\t\r";
  db_driver = "";
  db_url = "";
  logs_location = "";
  bind_addr = "";
  debug = false;
  demo = false;
  idle_timeout = 0;
  acl_check_cmd = "";
}

abbrev web : Host
web = record {
  id = 1;
  name = "web";
  addr = "";
  user = "";
  password = "pw";
  url = "ssh://root@web:22";
  ssh_key = none;
  ssh_key_id = 0;
  host_key = [];
  groups = [];
  comment = "";
  logging = "";
  hop_id = 0;
}

abbrev pem : SshKey
pem = record {
  id = 1;
  name = "default";
  type = "rsa";
  length = 2048;
  fingerprint = "";
  priv_key = "pem";
  pub_key = "";
  comment = "";
}

accepted_key_encrypts_example :
    ((host_encrypt toy (some (repeat 16 3)) "\t\r" web).1 ≡ none)
    × ((ssh_key_encrypt toy (some (repeat 16 3)) "\t\r" pem).1 ≡ none)
unfolding toy parse_server_config
accepted_key_encrypts_example =
    accepted_key_encrypts toy (repeat 16 3)
      (λ key size. (toy_block key, toy_cipher-takes key (sized (length key) size))) flags parsed web
      pem refl

-- the flags of the commands
named_flags :
    map (λ (f : Flag). f.name) server_flags
    ≡ "bind-address, b" ∷ "db-driver" ∷ "db-conn" ∷ "debug, D" ∷ "aes-key" ∷ "logs-location"
      ∷ "idle-timeout" ∷ "acl-check-cmd" ∷ []
unfolding server_flags
named_flags = refl
