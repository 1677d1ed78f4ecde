-- ===== src/Shell/Tests.antt =====
-- Examples of the shell's theorems, over the database of Toy.
use sshportal.Base.{
  ℕ, String, ◌≡◌, refl, true, false, none, some, List, [], ◌∷◌, filter, if◌then◌else◌, ◌==◌, any,
  ok, err, arith, Option, length, map, ap, sym,
}
use mathlib.Core.Option.{some-injective}
use sshportal.Base
use sshportal.Models.{Acl, Bytes, User, UserRole, SshKey, Session, no_user}
use sshportal.Crypto.{ssh_key_encrypt}
use sshportal.Crypto.Keys.{new_ssh_key, key_pair}
use sshportal.Crypto.Toy.{toy, repeat}
use sshportal.Hosts.{UrlParser}
use sshportal.Strconv.{is_int}
use sshportal.Strconv.Printing.{decimal}
use sshportal.Lookup.{
  has_role, check_roles, holds, ssh_keys_by_identifiers, generic_name_or_id, sort_out,
}
use sshportal.Shell.Actions.{Context, Env, ShellError, Reply, backup}
use sshportal.Shell.Run.{Command, acl, rm, ls, run_command}
use sshportal.Shell.Keys.{key_length}
use sshportal.Shell.Toy.{Db, db}
use sshportal.Shell.Atomic.{Kept, run_command-Kept}
use sshportal.Shell.Permission.{Refused, run_command-Refused}
use sshportal.Shell.Sessions.{all_pages}
use sshportal.Shell.Pages.{Complete, all_pages-Complete}
use sshportal.Shell.Backups.{as_read, as_read_backup, backup_keys}
use sshportal.Shell.Validity.{Valid, acls-Valid}
use sshportal.Shell.Acls.{acl_create, acl_rm}
use sshportal.Shell.Store.{Backup}
use sshportal.Shell.Config.{config_backup, convert, recode_key, recode_host}

abbrev session : ℕ → String → Session
session n status = record {
  id = n;
  stopped_at = none;
  status = status;
  user_id = 1;
  host_id = 1;
  err_msg = "";
  comment = "";
}

abbrev key : SshKey
key = record {
  id = 1;
  name = "default";
  type = "ed25519";
  length = 1;
  fingerprint = "";
  priv_key = "pem";
  pub_key = "pub";
  comment = "";
}

abbrev host_key : SshKey
host_key = record key { id = 2; name = "host" }

abbrev iv : Bytes
iv = repeat 16 3

abbrev allowing : Acl
allowing = record {
  id = 1;
  host_groups = 1 ∷ [];
  user_groups = 1 ∷ [];
  host_pattern = "";
  action = "allow";
  weight = 0;
  comment = "";
  inception = none;
  expiration = none;
}

abbrev rows : Db
rows = record {
  acl_rows = allowing ∷ [];
  host_rows = [];
  host_group_rows = [];
  user_group_rows = [];
  user_rows = no_user ∷ [];
  user_key_rows = [];
  ssh_key_rows = host_key ∷ (ssh_key_encrypt toy (some iv) "k" key).0 ∷ [];
  role_rows = [];
  session_rows = session 3 "active" ∷ session 2 "closed" ∷ session 1 "active" ∷ [];
  event_rows = [];
}

abbrev refused_parser : UrlParser
refused_parser _ = none

abbrev env : Env
env = record {
  suite = toy;
  aes_key = "k";
  entropy = λ _. some iv;
  parse_url = λ s. ok s;
  url = refused_parser;
  looks_numeric = λ _. false;
  parse_time = λ _. err "bad time";
  random_name = "fervent_bell";
  token = ok "token";
  generators = record {
    rsa = λ _. err "no entropy";
    ecdsa = λ _. err "no entropy";
    ed25519 = ok ("pem", "pub");
  };
  parse_private_key = λ _. err "no key";
  parse_authorized_key = λ _. err "no key";
  valid_email = λ _. true;
  decode_args = λ e. ok e;
  info = "";
  version = "";
  marshal_args = λ _. ok "{}";
  now = 0;
  lower = λ s. s;
  rel_time = λ _ _. "";
  humanize = λ _. "";
  format_time = λ _. "";
  valid_acl = λ _. ok tt;
  valid_host = λ _. ok tt;
  valid_host_group = λ _. ok tt;
  valid_user_group = λ _. ok tt;
  valid_user = λ _. ok tt;
  valid_user_key = λ _. ok tt;
  valid_ssh_key = λ _. ok tt;
}

abbrev admin_role : UserRole
admin_role = record { id = 1; name = "admin" }

abbrev root : User
root = record no_user { roles = admin_role ∷ [] }

abbrev words : List String → Context
words args = record {
  args = args;
  string = λ s. if s == "type" then "dsa" else "";
  bool = λ _. false;
  uint = λ _. 0;
  slice = λ _. [];
}

-- a parser that knows one command
abbrev acl_parser : List String → Option (Command × Context)
acl_parser l = some (acl ls, words [])

abbrev ls_word : List String
ls_word = "ls" ∷ []

run_command-Kept_example : Kept rows (run_command db env root (acl rm) (words ("3" ∷ [])) rows)
run_command-Kept_example = run_command-Kept db env root (words ("3" ∷ [])) rows (acl rm) refl

run_command-Refused_example :
    Refused ("admin" ∷ []) rows (run_command db env no_user (acl rm) (words ("3" ∷ [])) rows)
unfolding has_role any
run_command-Refused_example =
    run_command-Refused db env no_user (words ("3" ∷ [])) rows (acl rm) refl refl

shown : Unit {0}
unfolding db toy any has_role holds ssh_keys_by_identifiers generic_name_or_id sort_out is_int
    filter decimal new_ssh_key key_pair key_length
shown = tt

abbrev active : List Session
active = session 3 "active" ∷ session 1 "active" ∷ []

active_pages : all_pages db 1 ("active" ∷ []) 3 rows ≡ ok (some active)
unfolding shown all_pages
active_pages = refl

all_pages-Complete_example : Complete db 1 ("active" ∷ []) rows (some active)
unfolding shown
all_pages-Complete_example =
    all_pages-Complete db 1 ("active" ∷ []) rows (some active) (omega arith) active_pages

abbrev decrypting : Context
decrypting = record (words []) { bool = λ s. s == "decrypt" }

abbrev nothing : Backup
nothing = record {
  ssh_keys = [];
  hosts = [];
  user_keys = [];
  users = [];
  user_groups = [];
  host_groups = [];
  acls = [];
  settings = [];
  events = [];
  sessions = [];
  date = 0;
}

abbrev kept : Base.Result ShellError Reply × Db → Backup
kept (ok (backup b), _) = b
kept _ = nothing

unfoldable saved : Backup
saved = kept (config_backup db env root decrypting rows)

backup_succeeds : config_backup db env root decrypting rows ≡ (ok (backup saved), rows)
unfolding shown saved config_backup convert recode_key recode_host ssh_key_encrypt check_roles
backup_succeeds = refl

abbrev sixteen : (i : ℕ) (v : Bytes) → env.entropy i ≡ some v → length v ≡ 16
sixteen i v h = ap length (sym (some-injective iv v h))

-- the first key is stored in plain, the other one encrypted
backup_keys_example :
    map (as_read_backup db env root decrypting sixteen) saved.ssh_keys
    ≡ map (as_read db env root decrypting sixteen) (db.ssh_keys.rows rows)
backup_keys_example = backup_keys db env root decrypting sixteen saved rows rows backup_succeeds

acls-Valid_example :
    Valid db (acl_create db env root (words ("1" ∷ [])) rows).1
    × Valid db (acl_rm db env root (words ("1" ∷ [])) rows).1
unfolding db
acls-Valid_example = acls-Valid db env root (words ("1" ∷ [])) rows (λ n a. refl) refl
