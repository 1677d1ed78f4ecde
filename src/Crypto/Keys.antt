-- ===== src/Crypto/Keys.antt =====
-- NewSSHKey and what it calls, pkg/crypto/crypto.go. The generation of a key pair and its encodings
-- are a parameter: a pair is the PEM text of the private key and the line of the public one.
use sshportal.Base.{ℕ, String, ◌||◌, ltb, eqb, ◌==◌, if◌then◌else◌, Result, ok, err, ◌>>=◌}
use sshportal.Models.{SshKey}

pub record Generators : Type 0 where
  pub rsa : ℕ → Result String (String × String)
  -- by the size of the curve
  pub ecdsa : ℕ → Result String (String × String)
  pub ed25519 : Result String (String × String)

pub data KeyError : Type 0 where
  unsupported_type : String → KeyError
  unsupported_length : ℕ → KeyError
  failed : String → KeyError

abbrev generated : Result String (String × String) → Result KeyError (String × String)
generated (ok p) = ok p
generated (err e) = err (failed e)

unfoldable pub new_rsa_key : Generators → ℕ → Result KeyError (String × String)
new_rsa_key gen length =
    if ltb length 1024 || ltb 16384 length
    then err (unsupported_length length)
    else generated (gen.rsa length)

unfoldable pub new_ecdsa_key : Generators → ℕ → Result KeyError (String × String)
new_ecdsa_key gen length =
    if eqb length 256 || eqb length 384 || eqb length 521
    then generated (gen.ecdsa length)
    else err (unsupported_length length)

unfoldable pub new_ed25519_key : Generators → Result KeyError (String × String)
new_ed25519_key gen = generated gen.ed25519

unfoldable pub key_pair : Generators → String → ℕ → Result KeyError (String × String)
unfolding new_rsa_key new_ecdsa_key new_ed25519_key
key_pair gen type length =
    if type == "rsa"
    then new_rsa_key gen length
    else if type == "ecdsa"
    then new_ecdsa_key gen length
    else if type == "ed25519"
    then new_ed25519_key gen
    else err (unsupported_type type)

unfoldable pub new_ssh_key : Generators → String → ℕ → Result KeyError SshKey
unfolding key_pair
new_ssh_key gen type length = do
  pair ← key_pair gen type length
  ok (record {
    id = 0;
    name = "";
    type = type;
    length = length;
    fingerprint = "";
    priv_key = pair.0;
    pub_key = pair.1;
    comment = "";
  })

-- what gossh.ParseRawPrivateKey returns: an RSA key, by its bits and its encodings, or another
pub data ParsedKey : Type 0 where
  rsa_key : ℕ → Result String (String × String) → ParsedKey
  other_key : ParsedKey

unfoldable pub import_ssh_key : (String → Result String ParsedKey) → String → Result String SshKey
import_ssh_key parse value = do
  parsed ← parse value
  elim parsed [
    | other_key ↦ err "key type not supported"
    | rsa_key bits encoded ↦ do
      pair ← encoded
      ok (record {
        id = 0;
        name = "";
        type = "rsa";
        length = bits;
        fingerprint = "";
        priv_key = pair.0;
        pub_key = pair.1;
        comment = "";
      })
  ]
