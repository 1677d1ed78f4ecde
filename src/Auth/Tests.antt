-- ===== src/Auth/Tests.antt =====
-- Tests and examples of authentication: tables held in lists.
use sshportal.Base.{
  suc, String, if◌then◌else◌, ◌≡◌, ◌↔◌, refl, true, false, Option, none, some, List, [], ◌∷◌, ◌++◌,
  map, length, find, eqb, ◌==◌, arith, split, differs,
}
use sshportal.Models.{User, UserKey, no_user}
use sshportal.Auth
use sshportal.Auth.Tables.{Accounts, updated}
use sshportal.Auth.{
  Config, AuthContext, user_type, is_invite, fresh, PublicKey, invited_key, password_auth,
  known_key, invite_for_known_key, public_key_auth,
}
use sshportal.Auth.Identity.{password_auth_iff, Entitled, public_key_auth-Entitled}
use sshportal.Auth.Invites.{after_invite, invite_then_login, invite_token_survives}

record Db : Type 0 where
  accounts : List User
  keys : List UserKey

add : UserKey → Db → Option (UserKey × Db)
add k s =
    let row : UserKey = record k { id = suc (length s.keys) } in
    some (row, record s { keys = s.keys ++ row ∷ [] })

module _ (k : UserKey) (s : Db) {k' : UserKey} {s' : Db} (e : add k s ≡ some (k', s')) where
  add-row : k' ≡ record k { id = k'.id }
  unfolding add
  add-row = ground arith

  add-keys : s'.keys ≡ s.keys ++ k' ∷ []
  unfolding add
  add-keys = ground arith

  add-accounts : s'.accounts ≡ s.accounts
  unfolding add
  add-accounts = ground arith

change : User → Db → Option Db
change u s = some (record s { accounts = map (updated u) s.accounts })

module _ (u : User) (s : Db) {s' : Db} (e : change u s ≡ some s') where
  change-accounts : s'.accounts ≡ map (updated u) s.accounts
  unfolding change
  change-accounts = ground arith

  change-keys : s'.keys ≡ s.keys
  unfolding change
  change-keys = ground arith

abbrev tables : Accounts Db
tables = record {
  users = λ s. s.accounts;
  user_keys = λ s. s.keys;
  first_key = λ a s. find (λ k. k.authorized_key == a) s.keys;
  first_key_lem = λ a s. refl;
  first_user = λ i s. find (λ u. eqb u.id i) s.accounts;
  first_user_lem = λ i s. refl;
  first_invited = λ t s. find (λ u. u.invite_token == t) s.accounts;
  first_invited_lem = λ t s. refl;
  create_key = add;
  create_key_row = add-row;
  user_keys-create_key = add-keys;
  users-create_key = add-accounts;
  update_user = change;
  users-update_user = change-accounts;
  user_keys-update_user = change-keys;
}

abbrev config : Config
config = record {
  logs_location = "./log";
  acl_check_cmd = "";
  aes_key = "";
  db_driver = "sqlite3";
  db_url = "./sshportal.db";
  bind_addr = ":2222";
  demo = false;
}

abbrev bob : User
bob = record no_user {
  id = 2;
  name = "bob";
  email = "bob@example.com";
  invite_token = "NfHK5a84jjJkwzDk";
}

abbrev one_user : Db
one_user = record { accounts = bob ∷ []; keys = [] }

abbrev laptop : PublicKey
laptop = record { bytes = 1 ∷ []; authorized = "ssh-rsa AAAA" }

abbrev desktop : PublicKey
desktop = record { bytes = 2 ∷ []; authorized = "ssh-rsa BBBB" }

abbrev invitation : String
invitation = "invite:NfHK5a84jjJkwzDk"

abbrev stored_key : UserKey
stored_key = record {
  id = 1;
  key = 1 ∷ [];
  authorized_key = "ssh-rsa AAAA";
  user_id = 2;
  comment = "created by sshportal";
}

abbrev with_key : Db
with_key = record { accounts = bob ∷ []; keys = stored_key ∷ [] }

auth : Unit {0}
unfolding public_key_auth password_auth find user_type is_invite split add change invited_key
    known_key
auth = tt

password_auth_iff_example :
    ((password_auth config "admin").auth_success ≡ true) ↔ ◌≡◌ {A = String} "admin" "healthcheck"
password_auth_iff_example = password_auth_iff config "admin"

-- a login with a stored key
abbrev login : AuthContext
login = record (fresh config "web1" Auth.by_pubkey true) { user_key = stored_key; user = bob }

logs_in : public_key_auth tables config "web1" laptop with_key ≡ some (login, with_key)
unfolding auth
logs_in = refl

public_key_auth-Entitled_example : Entitled tables "web1" laptop with_key login.user
public_key_auth-Entitled_example =
    public_key_auth-Entitled tables "web1" laptop with_key config logs_in (omega arith)

invite_then_login_example :
    (first ctx : AuthContext) × (public_key_auth tables config invitation laptop one_user
      ≡ some (first, after_invite tables bob with_key))
    × (public_key_auth tables config "web1" laptop (after_invite tables bob with_key)
        ≡ some (ctx, after_invite tables bob with_key))
    × (ctx.user.id ≡ 2)
    × (ctx.user_key ≡ stored_key)
    × (ctx.error ≡ (
        if is_invite (user_type "web1" ctx.user)
        then some (invite_for_known_key ctx.user.email)
        else none))
unfolding auth
invite_then_login_example =
    invite_then_login tables config invitation "NfHK5a84jjJkwzDk" laptop bob stored_key one_user
      with_key refl refl refl (differs refl) refl (omega arith) refl refl "web1"

invite_token_survives_example :
    (first ctx : AuthContext) × (s' : Db) × (public_key_auth tables config invitation laptop
        one_user
      ≡ some (first, after_invite tables bob with_key))
    × (public_key_auth tables config invitation desktop (after_invite tables bob with_key)
        ≡ some (ctx, s'))
    × (ctx.user.id ≡ 2)
    × (ctx.error ≡ none)
unfolding auth
invite_token_survives_example =
    invite_token_survives tables config invitation "NfHK5a84jjJkwzDk" laptop bob stored_key one_user
      with_key refl refl refl (differs refl) refl (omega arith) refl refl desktop refl
