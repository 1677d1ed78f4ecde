-- ===== src/Server/Keys.antt =====
-- What parseServerConfig of server.go makes sure of for pkg/crypto/crypto.go.
use sshportal.Base.{
  String, ◌≡◌, ◌≢◌, refl, sym, ap, ◌∙◌, Bool, true, false, none, some, [], ◌∷◌, length, ◌==◌, arith,
  ℕ, eqb, ◌⊎◌, inl, inr, Bool-cases, Result, ok, err, if◌then◌else◌,
}
use sshportal.Models.{Bytes, Host, SshKey}
use sshportal.Crypto.{Suite, encrypt, host_encrypt, ssh_key_encrypt}
use sshportal.Server.Config.{CommandLine, ServerConfig, is_key_size, parse_server_config}

if-ok :
    {A : Type 0} (b : Bool) (a c : A) (x : String)
    → ◌≡◌ {A = Result String A} (if b then ok a else err x) (ok c)
    → (b ≡ true) × (a ≡ c)
if-ok true a c x e = (refl, cc)
if-ok false a c x e = absurd cc

-- the sizes that parseServerConfig accepts, but for that of no key
aes_sizes : (n : ℕ) → is_key_size n ≡ true → n ≢ 0 → (n ≡ 16) ⊎ ((n ≡ 24) ⊎ (n ≡ 32))
aes_sizes n h nonzero = elim (Bool-cases (eqb n 16)) [
  | inl a ↦ inl (ground arith)
  | inr a ↦ elim (Bool-cases (eqb n 24)) [
    | inl b ↦ inr (inl (ground arith))
    | inr b ↦ elim (Bool-cases (eqb n 0)) [
      | inl z ↦ absurd (nonzero (ground arith))
      | inr z ↦ inr (inr (ground arith))
    ]
  ]
]

none_there : (l : Bytes) → length l ≡ 0 → l ≡ []
none_there [] e = refl
none_there (b ∷ l) e = absurd (omega arith)

module _ (suite : Suite) (iv : Bytes)
    (ciphers : (key : Bytes)
      → (length key ≡ 16) ⊎ ((length key ≡ 24) ⊎ (length key ≡ 32))
      → (e : Bytes → Bytes) × (suite.cipher key ≡ some e)) where
  nonempty : (key : String) → (key == "") ≡ false → length (suite.bytes key) ≢ 0
  nonempty key h e =
      let blank : key ≡ "" =
        sym (suite.text-bytes key)
        ∙ ap suite.text (none_there (suite.bytes key) e ∙ sym suite.bytes-empty)
        ∙ suite.text-bytes "" in
      absurd (ground (arith, ap (λ t. t == "") blank))

  accepted :
      {D : Type 0} (c : CommandLine D) (cfg : ServerConfig D)
      → parse_server_config suite.bytes c ≡ ok cfg
      → is_key_size (length (suite.bytes cfg.aes_key)) ≡ true
  unfolding parse_server_config
  accepted c cfg e =
      let (right, same) =
        if-ok (is_key_size (length (suite.bytes (c.string "aes-key")))) _ cfg _ e in
      ap (λ (r : ServerConfig _). is_key_size (length (suite.bytes r.aes_key))) (sym same) ∙ right

  -- With an AES key that parseServerConfig accepts, HostEncrypt and SSHKeyEncrypt report no error,
  -- whatever the host and the key: if AES takes the keys of 16, 24 and 32 bytes, and the random source
  -- gives an initialisation vector.
  pub accepted_key_encrypts :
      {D : Type 0} (c : CommandLine D) (cfg : ServerConfig D) (host : Host) (key : SshKey)
      → parse_server_config suite.bytes c ≡ ok cfg
      → ((host_encrypt suite (some iv) cfg.aes_key host).1 ≡ none)
        × ((ssh_key_encrypt suite (some iv) cfg.aes_key key).1 ≡ none)
  unfolding parse_server_config host_encrypt ssh_key_encrypt encrypt
  accepted_key_encrypts c cfg host key e = elim (Bool-cases (cfg.aes_key == "")) [
    | inl h ↦ rw (h) (refl, refl)
    | inr h ↦
        let (block, takes) = ciphers (suite.bytes cfg.aes_key) (
          aes_sizes (length (suite.bytes cfg.aes_key)) (accepted c cfg e)
            (nonempty cfg.aes_key h)) in
        elim (Bool-cases (host.password == "")) [
          | inl p ↦ rw (h, p, encrypt, takes) (refl, refl)
          | inr p ↦ rw (h, p, encrypt, takes) (refl, refl)
        ]
  ]
