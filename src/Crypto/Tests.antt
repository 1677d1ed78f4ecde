-- ===== src/Crypto/Tests.antt =====
-- Tests and examples of the encryption of secrets, over the suite of Toy.
use sshportal.Base.{String, ◌≡◌, refl, none, some, [], arith}
use sshportal.Models.{Bytes, Host, SshKey}
use sshportal.Crypto.{host_encrypt, host_decrypt, ssh_key_decrypt}
use sshportal.Crypto.RoundTrip.{host_decrypt-host_encrypt, plain_secrets_kept}
use sshportal.Crypto.Toy.{toy, toy_block, repeat, unary}

abbrev iv : Bytes
iv = repeat 16 3

abbrev host_of : String → Host
host_of password = record {
  id = 1;
  name = "web";
  addr = "";
  user = "";
  password = password;
  url = "ssh://root@web:22";
  ssh_key = none;
  ssh_key_id = 0;
  host_key = [];
  groups = [];
  comment = "";
  logging = "";
  hop_id = 0;
}

abbrev key_of : String → SshKey
key_of secret = record {
  id = 1;
  name = "default";
  type = "rsa";
  length = 2048;
  fingerprint = "";
  priv_key = secret;
  pub_key = "";
  comment = "";
}

host_decrypt-host_encrypt_example :
    (host_decrypt toy "k" (host_encrypt toy (some iv) "k" (host_of "pw")).0 ≡ host_of "pw")
    × ((host_encrypt toy (some iv) "k" (host_of "pw")).1 ≡ none)
unfolding toy
host_decrypt-host_encrypt_example =
    host_decrypt-host_encrypt toy iv "k" (host_of "pw") (toy_block (unary "k")) refl refl

plain_secrets_kept_example :
    (host_decrypt toy "k" (host_of "pw") ≡ host_of "pw")
    × (ssh_key_decrypt toy "k" (key_of "pem") ≡ key_of "pem")
unfolding toy
plain_secrets_kept_example =
    plain_secrets_kept toy "k" (host_of "pw") (key_of "pem") (omega arith) (omega arith)
