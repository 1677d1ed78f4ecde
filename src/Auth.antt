-- ===== src/Auth.antt =====
-- Authentication: the first part of pkg/bastion/ssh.go. The tables that gorm keeps are an interface,
-- Accounts; what the ssh library calls with a user name and a key or a password is modelled whole.
pub mod Tables
mod Branches
pub mod Invites
pub mod Identity
mod Tests
use sshportal.Base.{
  ℕ, String, ◌<>◌, starts_with, split, second, Bool, true, false, Option, none, some, ltb, ◌==◌,
  ◌||◌, if◌then◌else◌,
}
use sshportal.Models.{Bytes, User, UserKey, no_user, no_user_key}
use Tables.{Accounts}

-- what PasswordAuthHandler and PublicKeyAuthHandler are given at the start of the server; the database
-- is the state, and `debug` is set nowhere
pub record Config : Type 0 where
  pub logs_location : String
  pub acl_check_cmd : String
  pub aes_key : String
  pub db_driver : String
  pub db_url : String
  pub bind_addr : String
  pub demo : Bool

-- `message`
pub data Message : Type 0 where
  no_message : Message
  welcome : (name email : String) → Message

-- `err`
pub data AuthError : Type 0 where
  invite_for_known_key : (email : String) → AuthError
  bad_token : AuthError
  unknown_key : AuthError
  access_denied : AuthError

pub data AuthMethod : Type 0 where
  by_password by_pubkey : AuthMethod

pub record AuthContext : Type 0 where
  pub message : Message
  pub error : Option AuthError
  pub user : User
  pub input_username : String
  pub user_key : UserKey
  pub config : Config
  pub auth_method : AuthMethod
  pub auth_success : Bool

pub data UserType : Type 0 where
  healthcheck bastion invite shell : UserType

-- authContext.userType
unfoldable pub user_type : String → User → UserType
user_type name user =
    if name == "healthcheck"
    then healthcheck
    else if name == user.name || name == user.email || name == "admin"
    then shell
    else if starts_with name "invite:"
    then invite
    else bastion

unfoldable pub is_healthcheck : UserType → Bool
is_healthcheck healthcheck = true
is_healthcheck _ = false

unfoldable pub is_invite : UserType → Bool
is_invite invite = true
is_invite _ = false

-- the composite literal of either handler, with its zero fields
unfoldable pub fresh : Config → String → AuthMethod → Bool → AuthContext
fresh config name method success = record {
  message = no_message;
  error = none;
  user = no_user;
  input_username = name;
  user_key = no_user_key;
  config = config;
  auth_method = method;
  auth_success = success;
}

-- PasswordAuthHandler; the context, whose `auth_success` is the answer
unfoldable pub password_auth : Config → String → AuthContext
unfolding fresh user_type is_healthcheck
password_auth config name =
    let ctx = fresh config name by_password false in
    record ctx { auth_success = is_healthcheck (user_type ctx.input_username ctx.user) }

-- ssh.PublicKey, as `Marshal` and `MarshalAuthorizedKey` show it
pub record PublicKey : Type 0 where
  pub bytes : Bytes
  pub authorized : String

abbrev pub anonymous : User
anonymous = record no_user { name = "Anonymous" }

-- the key that an invitation adds
unfoldable pub invited_key : User → PublicKey → UserKey
invited_key user key = record {
  id = 0;
  key = key.bytes;
  authorized_key = key.authorized;
  user_id = user.id;
  comment = "created by sshportal";
}

-- a First into a zero value, its error ignored
unfoldable pub found_user : Option User → User
found_user none = no_user
found_user (some u) = u

unfoldable pub found_key : Option UserKey → UserKey
found_key none = no_user_key
found_key (some k) = k

module _ {S : Type 0} (db : Accounts S) where
  open db use {first_key, first_user, first_invited, create_key, update_user}

  -- the key is known: its owner, and an error for an invitation
  unfoldable pub known_key : AuthContext → UserKey → S → AuthContext
  unfolding found_user
  known_key ctx k s =
      let user = found_user (first_user k.user_id s) in
      record ctx {
        user_key = k;
        user = user;
        error =
            if is_invite (user_type ctx.input_username user)
            then some (invite_for_known_key user.email)
            else ctx.error;
      }

  -- Create and Updates, their errors ignored; a failed one changes nothing
  unfoldable pub save_key : UserKey → S → UserKey × S
  save_key k s = elim (create_key k s) [ none ↦ (k, s) | some p ↦ p ]

  unfoldable pub save_user : User → S → S
  save_user u s = elim (update_user u s) [ none ↦ s | some s' ↦ s' ]

  -- the token is good: the key is added, and the token is cleared "to be only usable once"
  unfoldable pub accept_invite : AuthContext → User → PublicKey → S → AuthContext × S
  unfolding save_key save_user invited_key
  accept_invite ctx user key s =
      let (k, s') = save_key (invited_key user key) s in
      let cleared : User = record user { invite_token = "" } in
      (
        record ctx { user = cleared; user_key = k; message = welcome cleared.name cleared.email },
        save_user cleared s',
      )

  unfoldable pub try_token : AuthContext → String → PublicKey → S → AuthContext × S
  unfolding found_user accept_invite
  try_token ctx token key s =
      let user = if token == "" then no_user else found_user (first_invited token s) in
      if ltb 0 user.id
      then accept_invite ctx user key s
      else (record ctx { user = anonymous; error = some bad_token }, s)

  -- PublicKeyAuthHandler, whose answer to the ssh library is always true. `none` is the panic of
  -- `strings.Split(actx.inputUsername, ":")[1]` where there is no ":".
  unfoldable pub public_key_auth : Config → String → PublicKey → S → Option (AuthContext × S)
  unfolding fresh found_key known_key try_token user_type is_invite
  public_key_auth config name key s =
      let ctx = fresh config name by_pubkey true in
      let k = found_key (first_key key.authorized s) in
      if ltb 0 k.user_id
      then some (known_key ctx k s, s)
      else if is_invite (user_type name ctx.user)
      then (elim (second (split b':' name)) [
        | none ↦ none
        | some token ↦ some (try_token (record ctx { user_key = k }) token key s)
      ])
      else some (record ctx { user_key = k; error = some unknown_key; user = anonymous }, s)
