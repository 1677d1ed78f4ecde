-- ===== src/Server/HostKey.antt =====
-- PrivateKeyFromDB, pkg/bastion/ssh.go.
use sshportal.Base.{ℕ, String, Bool, [], ◌∷◌, Result, ok, err}
use sshportal.Models.{SshKey}
use sshportal.Crypto.{Suite, ssh_key_decrypt}
use sshportal.Lookup.{holds, ssh_keys_by_identifiers}
use sshportal.Shell.Store.{Table}

-- how a condition compares a text with an id, and gossh.ParsePrivateKey; P is the type of private keys
pub record KeySource (P : Type 0) : Type 0 where
  pub suite : Suite
  pub same : String → ℕ → Bool
  pub parse_private_key : String → Result String P

module _ {S P : Type 0} (source : KeySource P) (keys : Table S SshKey) where
  unfoldable pub is_host_key : SshKey → Bool
  unfolding holds ssh_keys_by_identifiers
  is_host_key k = holds source.same (ssh_keys_by_identifiers ("host" ∷ [])) (keys.columns k)

  -- the signer that AddHostKey is given
  unfoldable pub private_key_from_db : String → S → Result String P
  unfolding is_host_key ssh_key_decrypt
  private_key_from_db aes_key s = elim (keys.first is_host_key s) [
    | err e ↦ err e
    | ok key ↦ source.parse_private_key (ssh_key_decrypt source.suite aes_key key).priv_key
  ]
