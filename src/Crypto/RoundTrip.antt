-- ===== src/Crypto/RoundTrip.antt =====
-- What decryption gives back of encrypted secrets, and of secrets that were never encrypted.
use mathlib.Core.Path.{subst}
use sshportal.Base.{
  ℕ, List-cases, ◌<◌, String, ◌≡◌, ◌≢◌, refl, sym, ap, ◌∙◌, true, false, none, some, [], ◌∷◌, ◌++◌,
  length, take, drop, ltb, inl, inr, arith, Bool-cases, Option-cases, ◌==◌, differs, equals_not, ok,
  take-append, drop-append, length-append,
}
use sshportal.Models.{Bytes, Host, SshKey}
use sshportal.Crypto.{
  Suite, block_size, encrypt, decrypt, safe_decrypt, host_encrypt, host_decrypt, ssh_key_encrypt,
  ssh_key_decrypt,
}
use sshportal.Crypto.Cfb.{encrypt_stream, decrypt_stream, decrypt_stream-encrypt_stream}

nonempty : (b : Bytes) → length b ≡ 16 → b ≢ []
nonempty b h e = clash (sym h ∙ ap length e)
  where
    clash : ◌≢◌ {A = ℕ} 16 0
    clash z = omega arith

append-nil_left : (a b : Bytes) → a ++ b ≡ [] → a ≡ []
append-nil_left [] b e = refl
append-nil_left (x ∷ a) b e = absurd (nonempty_cons x (a ++ b) e)
  where
    nonempty_cons : (x : ℕ) (l : Bytes) → x ∷ l ≢ []
    nonempty_cons x l e = cc

module _ (c : Suite) where
  open c use {
    bytes, text, cipher, encode, decode, text-bytes, bytes-empty, bytes-All, cipher_length,
    cipher_bytes, decode-encode, decode-empty,
  }

  decrypt_long :
      (key iv body : Bytes) {block : Bytes → Bytes} (t : String)
      → cipher key ≡ some block
      → length iv ≡ 16
      → decode t ≡ iv ++ body
      → decrypt c key t ≡ ok (text (decrypt_stream block iv [] body))
  unfolding decrypt
  decrypt_long key iv body t hb hl hd =
      let h : ltb (length (iv ++ body)) 16 ≡ false =
        rw (length-append iv body, hl) (ground arith) in
      rw
        (
          hb,
          decrypt,
          hd,
          h,
          subst (λ n. take n (iv ++ body) ≡ iv) hl (take-append iv body),
          subst (λ n. drop n (iv ++ body) ≡ body) hl (drop-append iv body),
        )
        refl

  -- decrypt undoes encrypt, for every plain text, under any key that the cipher accepts
  decrypt-encrypt :
      (key iv : Bytes) (plain : String) (block : Bytes → Bytes)
      → cipher key ≡ some block
      → length iv ≡ 16
      → (t : String) × (encrypt c (some iv) key plain ≡ ok t)
        × (decrypt c key t ≡ ok plain)
        × (t ≢ "")
  unfolding encrypt
  decrypt-encrypt key iv plain block hb hl =
      let body = encrypt_stream block iv [] (bytes plain) in
      let full : (b : Bytes) → block b ≢ [] = λ b. nonempty (block b) (cipher_length key b hb) in
      (
        encode (iv ++ body),
        rw (hb, encrypt) refl,
        decrypt_long key iv body (encode (iv ++ body)) hb hl (decode-encode _)
            ∙ ap (λ b. ok (text b))
                (decrypt_stream-encrypt_stream block full (λ b. cipher_bytes key b hb) iv []
                  (bytes plain) tt (bytes-All plain))
            ∙ ap ok (text-bytes plain),
        λ e. nonempty iv hl (
            append-nil_left iv body
              (sym (decode-encode (iv ++ body)) ∙ ap decode e ∙ decode-empty)),
      )

  -- a key that is not empty is not empty as bytes
  key_bytes : (aes : String) → (aes == "") ≡ false → ltb 0 (length (bytes aes)) ≡ true
  key_bytes aes h = elim (List-cases (bytes aes)) [
    | inl e ↦
        absurd (differs h (sym (text-bytes aes) ∙ ap text (e ∙ sym bytes-empty) ∙ text-bytes ""))
    | inr (x, xs, e) ↦ rw e (ground arith)
  ]

  safe_decrypt_opens :
      (aes t : String) {plain : String}
      → (aes == "") ≡ false
      → decrypt c (bytes aes) t ≡ ok plain
      → safe_decrypt c (bytes aes) t ≡ plain
  unfolding safe_decrypt
  safe_decrypt_opens aes t h e = rw (key_bytes aes h, e) refl

  -- HostDecrypt gives a host back as it was before HostEncrypt, whatever its password, and HostEncrypt
  -- reports no error: if the cipher accepts the key and the random source returned one block.
  pub host_decrypt-host_encrypt :
      (iv : Bytes) (aes : String) (host : Host) (block : Bytes → Bytes)
      → cipher (bytes aes) ≡ some block
      → length iv ≡ 16
      → (host_decrypt c aes (host_encrypt c (some iv) aes host).0 ≡ host)
        × ((host_encrypt c (some iv) aes host).1 ≡ none)
  unfolding host_encrypt host_decrypt
  host_decrypt-host_encrypt iv aes host block hb hl = elim (Bool-cases (aes == "")) [
    | inl a ↦ rw a (refl, refl)
    | inr a ↦ elim (Bool-cases (host.password == "")) [
      | inl p ↦ rw (a, p, p) (refl, refl)
      | inr p ↦
          let (t, he, hd, ht) = decrypt-encrypt (bytes aes) iv host.password block hb hl in
          rw (a, p, he, equals_not ht, safe_decrypt_opens aes t a hd) (refl, refl)
    ]
  ]

  -- SSHKeyDecrypt gives a key back as it was before SSHKeyEncrypt, which reports no error, under the
  -- same conditions.
  pub ssh_key_decrypt-ssh_key_encrypt :
      (iv : Bytes) (aes : String) (key : SshKey) (block : Bytes → Bytes)
      → cipher (bytes aes) ≡ some block
      → length iv ≡ 16
      → (ssh_key_decrypt c aes (ssh_key_encrypt c (some iv) aes key).0 ≡ key)
        × ((ssh_key_encrypt c (some iv) aes key).1 ≡ none)
  unfolding ssh_key_encrypt ssh_key_decrypt
  ssh_key_decrypt-ssh_key_encrypt iv aes key block hb hl = elim (Bool-cases (aes == "")) [
    | inl a ↦ rw a (refl, refl)
    | inr a ↦
        let (t, he, hd, ht) = decrypt-encrypt (bytes aes) iv key.priv_key block hb hl in
        rw (a, he, safe_decrypt_opens aes t a hd) (refl, refl)
  ]

  safe_decrypt_keeps :
      (key : Bytes) (t : String) → length (decode t) < 16 → safe_decrypt c key t ≡ t
  unfolding safe_decrypt decrypt
  safe_decrypt_keeps key t h =
      let short : ltb (length (decode t)) block_size ≡ true = ground arith in
      elim (Bool-cases (ltb 0 (length key))) [
        | inl e ↦ elim (Option-cases (cipher key)) [
          | inl n ↦ rw (e, n) refl
          | inr (block, b) ↦ rw (e, b, short) refl
        ]
        | inr e ↦ rw e refl
      ]

  -- A secret that was stored before the server had a key for it is read as it stands: it is enough
  -- that what base64 makes of it is shorter than a block. That the server has a key makes no
  -- difference then, for a host's password or a private key.
  pub plain_secrets_kept :
      (aes : String) (host : Host) (key : SshKey)
      → length (decode host.password) < 16
      → length (decode key.priv_key) < 16
      → (host_decrypt c aes host ≡ host) × (ssh_key_decrypt c aes key ≡ key)
  unfolding host_decrypt ssh_key_decrypt
  plain_secrets_kept aes host key hp hk =
      let h = safe_decrypt_keeps (bytes aes) host.password hp in
      let k = safe_decrypt_keeps (bytes aes) key.priv_key hk in ground arith
