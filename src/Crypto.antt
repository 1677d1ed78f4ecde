-- ===== src/Crypto.antt =====
-- pkg/crypto/crypto.go. AES, base64 and the random source are a parameter; the CFB mode that is run
-- over the block cipher is modelled, a byte at a time.
pub mod Cfb
pub mod Keys
pub mod RoundTrip
pub mod Toy
mod Tests
use sshportal.Base.{
  ℕ, ◌<◌, String, ◌≡◌, ◌++◌, Option, none, some, List, [], length, take, drop, All, ltb, ◌==◌,
  if◌then◌else◌, Result, ok, err,
}
use sshportal.Models.{Bytes, Host, SshKey}
use Cfb.{encrypt_stream, decrypt_stream}

-- aes.BlockSize
abbrev pub block_size : ℕ
block_size = 16

-- What is used of Go's crypto/aes, encoding/base64 and string conversions. A Go string is a sequence
-- of bytes.
pub record Suite : Type 0 where
  pub bytes : String → Bytes
  pub text : Bytes → String
  pub text-bytes : (s : String) → text (bytes s) ≡ s
  pub bytes-empty : bytes "" ≡ []
  pub bytes-All : (s : String) → All (λ b. b < 256) (bytes s)
  -- aes.NewCipher, then Encrypt of one block; `none` is an error
  pub cipher : Bytes → Option (Bytes → Bytes)
  pub cipher_length :
      (key : Bytes) {e : Bytes → Bytes} (b : Bytes) → cipher key ≡ some e → length (e b) ≡ 16
  pub cipher_bytes :
      (key : Bytes) {e : Bytes → Bytes} (b : Bytes) → cipher key ≡ some e → All (λ x. x < 256) (e b)
  -- base64.URLEncoding; what it decodes of a malformed text is returned too
  pub encode : Bytes → String
  pub decode : String → Bytes
  pub decode-encode : (b : Bytes) → decode (encode b) ≡ b
  pub decode-empty : decode "" ≡ []

pub data CryptoError : Type 0 where
  bad_key no_entropy too_short : CryptoError

module _ (c : Suite) where
  open c use {bytes, text, cipher, encode, decode}

  -- encrypt, given what the random source returns for the initialisation vector
  unfoldable pub encrypt : Option Bytes → Bytes → String → Result CryptoError String
  encrypt entropy key plain = elim (cipher key) [
    | none ↦ err bad_key
    | some block ↦ elim entropy [
      | none ↦ err no_entropy
      | some iv ↦ ok (encode (iv ++ encrypt_stream block iv [] (bytes plain)))
    ]
  ]

  unfoldable pub decrypt : Bytes → String → Result CryptoError String
  decrypt key crypto_text =
      let raw = decode crypto_text in
      elim (cipher key) [
        | none ↦ err bad_key
        | some block ↦
            if ltb (length raw) block_size
            then err too_short
            else ok (text (decrypt_stream block (take block_size raw) [] (drop block_size raw)))
      ]

  unfoldable pub safe_decrypt : Bytes → String → String
  safe_decrypt key crypto_text =
      if ltb 0 (length key)
      then (elim (decrypt key crypto_text) [ ok out ↦ out | err _ ↦ crypto_text ])
      else crypto_text

  -- what `x, err = encrypt(...)` assigns to x
  abbrev assigned : Result CryptoError String → String
  assigned (ok s) = s
  assigned (err _) = ""

  abbrev failure : Result CryptoError String → Option CryptoError
  failure (ok _) = none
  failure (err e) = some e

  unfoldable pub host_encrypt : Option Bytes → String → Host → Host × Option CryptoError
  host_encrypt entropy aes_key host =
      if aes_key == ""
      then (host, none)
      else if host.password == ""
      then (host, none)
      else let r = encrypt entropy (bytes aes_key) host.password in
        (record host { password = assigned r }, failure r)

  unfoldable pub host_decrypt : String → Host → Host
  host_decrypt aes_key host =
      if aes_key == ""
      then host
      else if host.password == ""
      then host
      else record host { password = safe_decrypt (bytes aes_key) host.password }

  unfoldable pub ssh_key_encrypt : Option Bytes → String → SshKey → SshKey × Option CryptoError
  ssh_key_encrypt entropy aes_key key =
      if aes_key == ""
      then (key, none)
      else let r = encrypt entropy (bytes aes_key) key.priv_key in
        (record key { priv_key = assigned r }, failure r)

  unfoldable pub ssh_key_decrypt : String → SshKey → SshKey
  ssh_key_decrypt aes_key key =
      if aes_key == ""
      then key
      else record key { priv_key = safe_decrypt (bytes aes_key) key.priv_key }
