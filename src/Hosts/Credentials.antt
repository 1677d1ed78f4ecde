-- ===== src/Hosts/Credentials.antt =====
-- How the program logs in to a host.
use sshportal.Base.{
  String, ◌≡◌, ◌≢◌, ◌⊎◌, inl, inr, false, Bool, none, some, List, [], ◌∷◌, ◌++◌, Bool-cases,
  Option-cases, ◌==◌, eq_iff, equals_not, if◌then◌else◌, ok, err,
}
use sshportal.Models.{Host, SshKey}
use sshportal.Hosts.{
  UrlParser, username, passwd, AuthMethod, public_keys, password, bad_key, no_auth_method,
  client_config,
}

-- A host with a URL: its password column is never read, neither for the password that is offered
-- nor for the methods that ClientConfig sets up.
pub password_column_ignored :
    (parse : UrlParser) (parses : String → Bool) (host : Host) (p : String)
    → host.url ≢ ""
    → (passwd parse (record host { password = p }) ≡ passwd parse host)
      × (client_config parse parses (record host { password = p })
          ≡ client_config parse parses host)
unfolding client_config passwd username
password_column_ignored parse parses host p h = (rw (equals_not h), rw (equals_not h))

-- the methods that a host's row provides
abbrev pub methods : UrlParser → Host → List AuthMethod
methods parse host =
    (elim host.ssh_key [ none ↦ [] | some key ↦ public_keys key.priv_key ∷ [] ])
    ++ (if passwd parse host == "" then [] else password (passwd parse host) ∷ [])

module _ (parse : UrlParser) (parses : String → Bool) (host : Host) where
  -- ClientConfig ends in one of three ways: the host has a key that does not parse; it has neither a
  -- key nor a password; or it has the user name of the host and all methods that the host provides,
  -- at least one.
  pub client_config_cases :
      ((key : SshKey) × (host.ssh_key ≡ some key)
        × (parses key.priv_key ≡ false)
        × (client_config parse parses host ≡ err bad_key))
      ⊎ ((host.ssh_key ≡ none)
          × (passwd parse host ≡ "")
          × (client_config parse parses host ≡ err (no_auth_method host.name)))
      ⊎ ((methods parse host ≢ [])
          × (client_config parse parses host
              ≡ ok (record { user = username parse host; auth = methods parse host })))
  unfolding client_config passwd
  client_config_cases = elim (Option-cases host.ssh_key) [
    | inl e ↦ elim (Bool-cases (passwd parse host == "")) [
      | inl n ↦ inr (inl (e, (eq_iff _ _).0 n, rw (e, n)))
      | inr n ↦ inr (inr (rw (e, n) (λ p. cc), rw (e, n)))
    ]
    | inr (key, e) ↦ elim (Bool-cases (parses key.priv_key)) [
      | inl k ↦ inr (inr (rw e (λ p. cc), rw (e, k)))
      | inr k ↦ inl (key, e, k, rw (e, k))
    ]
  ]
