-- ===== src/Channel.antt =====
-- ChannelHandler and bastionClientConfig of pkg/bastion/ssh.go: what a connection to a host comes to,
-- up to the call of multiChannelHandler or of the telnet bridge. `refused` is the error that is
-- written to the channel, if that can be accepted.
pub mod Outcomes
pub mod Permission
pub mod Hops
pub mod Pinning
mod Tests
use sshportal.Base.{
  ℕ, zero, suc, String, Bool, true, false, not, ◌&&◌, ◌||◌, Option, none, some, List, [], ◌∷◌, eqb,
  ◌==◌, if◌then◌else◌, Result, ok, err, ◌>>=◌,
}
use sshportal.Models.{
  User, Host, Session, action_allow, action_deny, scheme_ssh, scheme_telnet, status_active,
}
use sshportal.Access.Acls.{Runtime}
use sshportal.Access.Hook.{HookEnv, check_acls}
use sshportal.Hosts.{UrlParser, scheme, dial_addr, ClientConfig, ConfigError, client_config}
use sshportal.Auth.{
  AuthContext, UserType, user_type, is_healthcheck, bastion, healthcheck, invite, shell,
}
use sshportal.Crypto.{Suite, host_decrypt, ssh_key_decrypt}

pub data ChannelError : Type 0 where
  access_denied no_permission no_user no_host no_session : ChannelError
  no_such_target invalid_action unknown_scheme : String → ChannelError
  bad_config : ConfigError → ChannelError

-- the libraries, and the tables as gorm reads them; the clock is read once for each host of a chain
pub record Env (S : Type 0) : Type 0 where
  pub url : UrlParser
  pub parses : String → Bool
  pub suite : Suite
  pub runtime : Runtime
  pub hook : HookEnv
  pub clock : ℕ → ℕ
  -- Where("name = ?", n).Find into a zero row
  pub find_host : String → S → Host
  -- First with the groups and their ACLs; `none` is an error
  pub load_user : ℕ → S → Option User
  pub load_host : ℕ → S → Option Host
  -- Model(host).Association of that name and Find into a zero row; `none` is an error
  pub association : String → Host → S → Option Host
  -- Create; `none` is an error
  pub create_session : Session → S → Option (Session × S)

pub record SessionConfig : Type 0 where
  pub addr : String
  pub client_config : ClientConfig
  pub logs_location : String
  pub logging_mode : String

-- what the loop over the hops comes to
pub data Walk : Type 0 where
  arrived : List SessionConfig → Walk
  refused : ChannelError → Walk
  dropped panicked endless : Walk

pub data Outcome : Type 0 where
  rejected : Outcome
  stopped : Walk → Outcome
  forwarding : List SessionConfig → Session → Outcome
  telnet : Host → Outcome
  served : Outcome

-- the switch on the action
unfoldable pub permit : String → ClientConfig → Result ChannelError ClientConfig
permit action config =
    if action == action_allow
    then ok config
    else if action == action_deny
    then err no_permission
    else err (invalid_action action)

unfoldable pub required {ℓ} : {A : Type ℓ} → ChannelError → Option A → Result ChannelError A
required e none = err e
required e (some a) = ok a

unfoldable pub configured : Result ConfigError ClientConfig → Result ChannelError ClientConfig
configured (ok c) = ok c
configured (err e) = err (bad_config e)

unfoldable pub session_row : User → Host → Session
session_row user host = record {
  id = 0;
  stopped_at = none;
  status = status_active;
  user_id = user.id;
  host_id = host.id;
  err_msg = "";
  comment = "";
}

module _ {S : Type 0} (env : Env S) where
  open env use {
    url, parses, suite, runtime, hook, clock, find_host, load_user, load_host, association,
    create_session,
  }

  -- HostDecrypt and SSHKeyDecrypt on the host; `none` is the panic of the latter on a nil key
  unfoldable pub open_secrets : String → Host → Option Host
  open_secrets aes host =
      let h = host_decrypt suite aes host in
      elim h.ssh_key [
        | none ↦ if aes == "" then some h else none
        | some k ↦ some (record h { ssh_key = some (ssh_key_decrypt suite aes k) })
      ]

  -- what follows the decryption in bastionClientConfig
  unfoldable pub authorize : AuthContext → ℕ → S → Host → Result ChannelError ClientConfig
  unfolding configured required permit
  authorize ctx now s host = do
    config ← configured (client_config url parses host)
    user ← required no_user (load_user ctx.user.id s)
    row ← required no_host (load_host host.id s)
    permit (check_acls runtime hook now user row ctx.config.acl_check_cmd) config

  unfoldable pub host_by_name : String → S → Option Host
  host_by_name name s = let host = find_host name s in if host.name == "" then none else some host

  -- the host before this one, if there is one; the error of HostByName is ignored
  unfoldable pub hop_of : Host → S → Option (Option Host)
  unfolding host_by_name
  hop_of host s = if eqb host.hop_id 0 then some none else (elim (association "HopID" host s) [
    | none ↦ none
    | some hop ↦ some (host_by_name hop.name s)
  ])

  -- `for currentHost != nil`, the hops in front of what is there; `endless` where the fuel runs out
  unfoldable pub walk : ℕ → ℕ → AuthContext → S → Option Host → List SessionConfig → Walk
  unfolding open_secrets authorize hop_of
  walk fuel n ctx s none configs = arrived configs
  walk zero n ctx s (some host) configs = endless
  walk (suc fuel) n ctx s (some host) configs = elim (open_secrets ctx.config.aes_key host) [
    | none ↦ panicked
    | some h ↦ elim (authorize ctx (clock n) s h) [
      | err e ↦ refused e
      | ok config ↦ elim (dial_addr url h) [
        | none ↦ panicked
        | some addr ↦ elim (hop_of h s) [
          | none ↦ dropped
          | some hop ↦ walk fuel (suc n) ctx s hop (
              record {
                addr = addr;
                client_config = config;
                logs_location = ctx.config.logs_location;
                logging_mode = h.logging;
              }
              ∷ configs)
        ]
      ]
    ]
  ]

  -- the session row, once the chain is complete
  unfoldable pub start_session : AuthContext → Host → Walk → S → Outcome × S
  start_session ctx host (arrived configs) s = elim (create_session (session_row ctx.user host) s) [
    | none ↦ (stopped (refused no_session), s)
    | some p ↦ (forwarding configs p.0, p.1)
  ]
  start_session ctx host w s = (stopped w, s)

  unfoldable pub bastion_channel : ℕ → AuthContext → S → Outcome × S
  unfolding host_by_name walk start_session
  bastion_channel fuel ctx s = elim (host_by_name ctx.input_username s) [
    | none ↦ (stopped (refused (no_such_target ctx.input_username)), s)
    | some host ↦
        if scheme url host == scheme_ssh
        then start_session ctx host (walk fuel 0 ctx s (some host) []) s
        else if scheme url host == scheme_telnet
        then (telnet host, s)
        else (stopped (refused (unknown_scheme (scheme url host))), s)
  ]

  -- ChannelHandler; `resolves` is whether the remote address does
  unfoldable pub channel_handler : ℕ → String → Bool → AuthContext → S → Outcome × S
  unfolding user_type is_healthcheck bastion_channel
  channel_handler fuel channel_type resolves ctx s =
      if not (channel_type == "session" || channel_type == "direct-tcpip")
      then (rejected, s)
      else if eqb ctx.user.id 0
          && not (is_healthcheck (user_type ctx.input_username ctx.user))
          && resolves
      then (stopped (refused access_denied), s)
      else elim (user_type ctx.input_username ctx.user) [
        | bastion ↦ bastion_channel fuel ctx s
        | healthcheck ↦ (served, s)
        | invite ↦ (served, s)
        | shell ↦ (served, s)
      ]
