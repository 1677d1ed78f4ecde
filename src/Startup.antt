-- ===== src/Startup.antt =====
-- The rest of DBInit, pkg/bastion/dbinit.go: the rows that are created where they are missing, the
-- closing of sessions that a halt left open, and randStringBytes.
pub mod Token
pub mod Ensure
pub mod Seeding
mod Toy
mod Tests
use Prim.Native.String.{[] as no_text, ◌∷◌ as push}
use sshportal.Base.{
  ℕ, zero, suc, Char, code, String, ◌<>◌, ◌≡◌, Bool, true, false, not, ◌&&◌, ◌||◌, Option, none,
  some, List, [], ◌∷◌, ◌++◌, map, length, eqb, ◌==◌, if◌then◌else◌, Result, ok, err,
}
use sshportal.Base
use sshportal.Models.{
  Acl, UserGroup, HostGroup, User, UserRole, SshKey, Session, no_user, status_active, status_closed,
  action_allow,
}
use sshportal.Lookup.{Event, new_event, encoded, Value}
use sshportal.Crypto.Keys.{Generators, KeyError, new_ssh_key}
use sshportal.Shell.Store.{Table, Gorm}
use sshportal.Migrations.{Migrator, migrate}
use sshportal.Migrations.History.{migrations}

abbrev pub letter_bytes : String
letter_bytes = "abcdefghijklmnopqrstuvwxyzABCDEFGHIJKLMNOPQRSTUVWXYZ0123456789"

-- letterBytes[r], which panics out of range
unfoldable pub letter : ℕ → String → Option Char
letter n no_text = none
letter zero (push c s) = some c
letter (suc n) (push c s) = letter n s

abbrev pub prefixed : Option Char → Result String String → Result String String
prefixed (some c) (ok s) = ok (push c s)
prefixed none (ok s) = err "index out of range"
prefixed c (err e) = err e

-- the loop, given what rand.Int returns from the i-th call on
unfoldable pub rand_string_bytes : (ℕ → Result String ℕ) → ℕ → Result String String
unfolding letter
rand_string_bytes draw zero = ok ""
rand_string_bytes draw (suc n) =
    let rest = rand_string_bytes (λ i. draw (suc i)) n in
    elim (draw 0) [
      | err e ↦ err ("failed to generate random string: " <> e)
      | ok r ↦ prefixed (letter r letter_bytes) rest
    ]

pub data InitError : Type 0 where
  failed : String → InitError
  no_key : KeyError → InitError

-- what DBInit reads beside the database
pub record Surroundings : Type 0 where
  pub generators : Generators
  pub draw : ℕ → Result String ℕ
  -- SSHPORTAL_DEFAULT_ADMIN_INVITE_TOKEN and USER
  pub token_variable : String
  pub user_variable : String
  -- user.Current
  pub current_user : Result String String
  pub lower : String → String
  pub marshal_args : List (String × Value) → Result String String

-- the database, with Updates of the sessions that a condition selects
pub record Opened (S : Type 0) : Type 0 where
  pub gorm : Gorm S
  pub update_sessions : (Session → Bool) → (Session → Session) → S → Result String S
  pub update_sessions_lem :
      (p : Session → Bool) (f : Session → Session) (s : S) {s' : S}
      → update_sessions p f s ≡ ok s'
      → gorm.sessions.rows s' ≡ map (λ x. if p x then f x else x) (gorm.sessions.rows s)

abbrev pub as_failure : {A : Type 0} → Result String A → Result InitError A
as_failure (ok a) = ok a
as_failure (err e) = err (failed e)

abbrev pub as_no_key : {A : Type 0} → Result KeyError A → Result InitError A
as_no_key (ok a) = ok a
as_no_key (err e) = err (no_key e)

abbrev pub created : {S R : Type 0} → Result String (R × S) → Result InitError S
created (ok p) = ok p.1
created (err e) = err (failed e)

abbrev pub or_default : {A : Type 0} → A → Result String A → A
or_default a (ok r) = r
or_default a (err _) = a

unfoldable pub default_host_group : HostGroup
default_host_group = record {
  id = 0;
  name = "default";
  hosts = [];
  acls = [];
  comment = "created by sshportal";
}

unfoldable pub default_user_group : UserGroup
default_user_group = record {
  id = 0;
  name = "default";
  users = [];
  acls = [];
  comment = "created by sshportal";
}

-- `var defaultUserGroup dbmodels.UserGroup`, where First finds none
abbrev no_user_group : UserGroup
no_user_group = record default_user_group { name = ""; comment = "" }

abbrev no_host_group : HostGroup
no_host_group = record default_host_group { name = ""; comment = "" }

-- the name of the first user: that of the process, or USER, in lower case, or `admin`
unfoldable pub admin_name : Surroundings → String
admin_name env =
    let current = or_default "" env.current_user in
    let known = env.lower (if current == "" then env.user_variable else current) in
    if known == "" then "admin" else known

unfoldable pub halted : Session → Session
halted x = record x {
  status = status_closed;
  err_msg = "sshportal was halted while the connection was still active";
}

abbrev pub is_active : Session → Bool
is_active x = x.status == status_active

-- Count under a condition, and Create if it is 0
unfoldable pub ensure :
    {S R : Type 0} → Table S R → (R → Bool) → (S → Result InitError R) → S → Result InitError S
ensure t p make s = elim (t.find p s) [
  | err e ↦ err (failed e)
  | ok (_ ∷ _) ↦ ok s
  | ok [] ↦ elim (make s) [ err e ↦ err e | ok r ↦ created (t.create r s) ]
]

module _ {S : Type 0} (d : Opened S) (env : Surroundings) where
  unfoldable pub fresh_key : String → S → Result InitError SshKey
  fresh_key name s = elim (new_ssh_key env.generators "ed25519" 1) [
    | err e ↦ err (no_key e)
    | ok key ↦ ok (record key { name = name; comment = "created by sshportal" })
  ]

  abbrev group_of : S → UserGroup
  group_of s = or_default no_user_group (d.gorm.user_groups.first (λ u. u.name == "default") s)

  unfoldable pub default_acl : S → Result InitError Acl
  default_acl s = ok (record {
    id = 0;
    host_groups =
        (or_default no_host_group (d.gorm.host_groups.first (λ h. h.name == "default") s)).id ∷ [];
    user_groups = (group_of s).id ∷ [];
    host_pattern = "";
    action = action_allow;
    weight = 0;
    comment = "created by sshportal";
    inception = none;
    expiration = none;
  })

  unfoldable pub first_admin : S → Result InitError User
  unfolding rand_string_bytes admin_name
  first_admin s = elim (rand_string_bytes env.draw 16) [
    | err e ↦ err (failed e)
    | ok token ↦ elim (d.gorm.user_roles.first (λ r. r.name == "admin") s) [
      | err e ↦ err (failed e)
      | ok role ↦ ok (record no_user {
        name = admin_name env;
        email = admin_name env <> "@localhost";
        comment = "created by sshportal";
        roles = role ∷ [];
        invite_token = if env.token_variable == "" then token else env.token_variable;
        groups = group_of s ∷ [];
      })
    ]
  ]

  -- `NewEvent("system", "migrated").Log(db)`, whose errors are logged
  unfoldable pub log_migrated : S → S
  unfolding new_event encoded
  log_migrated s =
      elim (d.gorm.events.create (encoded env.marshal_args (new_event "system" "migrated")) s) [
        | ok p ↦ p.1
        | err _ ↦ s
      ]

  unfoldable pub seed_rows : S → Result InitError S
  unfolding ensure fresh_key default_acl first_admin default_host_group default_user_group
  seed_rows s =
      Base.◌>>=◌ (ensure d.gorm.ssh_keys (λ k. k.name == "default") (fresh_key "default") s) (λ s₁.
        Base.◌>>=◌
          (ensure d.gorm.host_groups (λ h. h.name == "default") (λ _. ok default_host_group) s₁)
          (λ s₂.
            Base.◌>>=◌
              (ensure d.gorm.user_groups (λ u. u.name == "default") (λ _. ok default_user_group) s₂)
              (λ s₃. Base.◌>>=◌ (ensure d.gorm.acls (λ _. true) default_acl s₃) (λ s₄.
                Base.◌>>=◌ (ensure d.gorm.users (λ _. true) first_admin s₄)
                  (λ s₅. ensure d.gorm.ssh_keys (λ k. k.name == "host") (fresh_key "host") s₅)))))

  unfoldable pub close_sessions : S → Result InitError S
  unfolding halted
  close_sessions s = as_failure (d.update_sessions is_active halted s)

  -- DBInit; gormigrate is given the migrations that have not run
  unfoldable pub db_init : Migrator S → ℕ → S → Result InitError S
  unfolding log_migrated seed_rows close_sessions
  db_init m version s =
      Base.◌>>=◌ (as_failure (migrate m (Base.drop version migrations) s))
        (λ s₁. Base.◌>>=◌ (seed_rows (log_migrated s₁)) close_sessions)
