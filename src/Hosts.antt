-- ===== src/Hosts.antt =====
-- The `Host` methods of pkg/dbmodels/dbmodels.go. The parser of net/url, and ParsePrivateKey of
-- golang.org/x/crypto/ssh, are parameters.
pub mod Addresses
pub mod Credentials
mod Tests
use sshportal.Base.{
  ℕ, String, ◌<>◌, split, first, second, Bool, Option, none, some, List, [], ◌∷◌, ◌++◌, ◌==◌,
  if◌then◌else◌, Result, ok, err, ◌>>=◌,
}
use sshportal.Models.{Host, SshKey, scheme_ssh, scheme_telnet}
use sshportal.Strconv.{parse_uint}
use sshportal.Strconv.Printing.{decimal}

-- url.Userinfo
pub record Userinfo : Type 0 where
  pub username : String
  pub password : Option String

-- what is read of a url.URL
pub record Url : Type 0 where
  pub scheme : String
  pub hostname : String
  pub port : String
  pub user : Option Userinfo

-- url.Parse; `none` is an error
abbrev pub UrlParser : Type 0
UrlParser = String → Option Url

-- part [0] of a Split is always there
unfoldable pub first_part : String → String
first_part s = elim (first (split b':' s)) [ none ↦ "" | some p ↦ p ]

-- `password, _ := u.User.Password()`
given : Option String → String
given none = ""
given (some p) = p

module _ (parse : UrlParser) where
  unfoldable pub scheme : Host → String
  scheme host =
      if host.url == ""
      then (if host.addr == "" then "" else scheme_ssh)
      else elim (parse host.url) [ none ↦ scheme_ssh | some u ↦ u.scheme ]

  unfoldable pub hostname : Host → String
  unfolding first_part
  hostname host =
      if host.url == ""
      then (if host.addr == "" then "" else first_part host.addr)
      else elim (parse host.url) [ none ↦ "" | some u ↦ u.hostname ]

  unfoldable pub username : Host → String
  username host =
      if host.url == ""
      then (if host.user == "" then "root" else host.user)
      else elim (parse host.url) [
        | none ↦ "root"
        | some u ↦ elim u.user [ none ↦ "root" | some info ↦ info.username ]
      ]

  unfoldable pub passwd : Host → String
  unfolding given
  passwd host =
      if host.url == ""
      then (if host.password == "" then "" else host.password)
      else elim (parse host.url) [
        | none ↦ ""
        | some u ↦ elim u.user [ none ↦ "" | some info ↦ given info.password ]
      ]

  -- the label `defaultPort`
  unfoldable pub default_port : Host → ℕ
  default_port host =
      if scheme host == scheme_ssh then 22 else if scheme host == scheme_telnet then 23 else 0

  unfoldable pub port_or_default : Host → String → ℕ
  port_or_default host text =
      if text == ""
      then default_port host
      else elim (parse_uint text) [ none ↦ default_port host | some p ↦ p ]

  -- `none` is the panic of `strings.Split(host.Addr, ":")[1]` where there is no ":"
  unfoldable pub port : Host → Option ℕ
  port host =
      if host.url == ""
      then (if host.addr == ""
          then some (port_or_default host "")
          else elim (second (split b':' host.addr)) [
            | none ↦ none
            | some text ↦ some (port_or_default host text)
          ])
      else elim (parse host.url) [
        | none ↦ some (default_port host)
        | some u ↦ some (port_or_default host u.port)
      ]

  unfoldable pub dial_addr : Host → Option String
  dial_addr host = elim (port host) [
    | none ↦ none
    | some p ↦ some (hostname host <> ":" <> decimal p)
  ]

-- String(), which masks the password of a host without a URL
unfoldable pub show : Host → String
show host =
    if host.url == ""
    then (if host.addr == ""
        then ""
        else if host.password == ""
        then "ssh://" <> host.user <> "@" <> host.addr
        else "ssh://" <> host.user <> ":****@" <> host.addr)
    else host.url

-- ssh.AuthMethod: a signer, named by the private key that it was parsed from, or a password
pub data AuthMethod : Type 0 where
  public_keys : String → AuthMethod
  password : String → AuthMethod

pub record ClientConfig : Type 0 where
  pub user : String
  pub auth : List AuthMethod

pub data ConfigError : Type 0 where
  bad_key : ConfigError
  no_auth_method : String → ConfigError

key_auth : (String → Bool) → Option SshKey → Result ConfigError (List AuthMethod)
key_auth parses none = ok []
key_auth parses (some key) =
    if parses key.priv_key then ok (public_keys key.priv_key ∷ []) else err bad_key

unfoldable pub with_auth : Host → String → List AuthMethod → Result ConfigError ClientConfig
with_auth host name [] = err (no_auth_method host.name)
with_auth host name (m ∷ ms) = ok (record { user = name; auth = m ∷ ms })

-- ClientConfig, given which texts ParsePrivateKey accepts; the host key callback is the caller's
unfoldable pub client_config : UrlParser → (String → Bool) → Host → Result ConfigError ClientConfig
unfolding key_auth with_auth
client_config parse parses host = do
  keys ← key_auth parses host.ssh_key
  with_auth host (username parse host)
      (keys ++ (if passwd parse host == "" then [] else password (passwd parse host) ∷ []))
