-- ===== src/Shell/Backups.antt =====
-- What `config backup` makes of the private keys.
use sshportal.Base.{
  ℕ, ◌≡◌, refl, sym, ap, ◌∙◌, true, Option, none, some, List, [], ◌∷◌, map, filter, length, inl,
  inr, arith, Bool-cases, Option-cases, Result-cases, Result, if◌then◌else◌, ok, both_succeed, ◌==◌,
}
use sshportal.Models.{Bytes, SshKey, User}
use sshportal.Crypto.{CryptoError, encrypt, ssh_key_encrypt, ssh_key_decrypt}
use sshportal.Crypto.RoundTrip.{ssh_key_decrypt-ssh_key_encrypt}
use sshportal.Shell.Store.{Gorm, Backup}
use sshportal.Shell.Actions.{Context, Env, ShellError, backup}
use sshportal.Shell.Config.{outcome, convert, recode_key, config_backup}

filter-true : {A : Type 0} (l : List A) → filter (λ _. true) l ≡ l
unfolding filter
filter-true [] = refl
filter-true (x ∷ l) = ap (λ r. x ∷ r) (filter-true l)

fine_outcome : {A : Type 0} (p : A × Option CryptoError) (a : A) → outcome p ≡ ok a → p.0 ≡ a
fine_outcome (a, none) b h = cc
fine_outcome (a, some e) b h = absurd cc

-- what a function that succeeds on every key does to each of them
map-convert :
    {A B C : Type 0} (f : A → Result ShellError B) (g : B → C) (h : A → C)
    → ((a : A) (b : B) → f a ≡ ok b → g b ≡ h a)
    → (l : List A) (r : List B) → convert f l ≡ ok r
    → map g r ≡ map h l
unfolding convert
map-convert f g h each [] r e = let q : r ≡ [] = cc in ap (map g) q
map-convert f g h each (a ∷ l) r e =
    let (b, hb, e₁) = both_succeed (f a) _ r e in
    let (bs, hbs, e₂) = both_succeed (convert f l) _ r e₁ in
    let q : r ≡ b ∷ bs = cc in
    ap (map g) q
    ∙ ap (λ x. x ∷ map g bs) (each a b hb)
    ∙ ap (λ x. h a ∷ x) (map-convert f g h each l bs hbs)

module _ {S : Type 0} (g : Gorm S) (env : Env) (myself : User) (c : Context)
    (size : (i : ℕ) (iv : Bytes) → env.entropy i ≡ some iv → length iv ≡ 16) where
  -- how a server reads a key of the table
  abbrev pub as_read : SshKey → SshKey
  as_read key = ssh_key_decrypt env.suite env.aes_key key

  -- how a key of a backup is read: with the flag `decrypt` it is in clear
  abbrev pub as_read_backup : SshKey → SshKey
  as_read_backup key = if c.bool "decrypt" then key else as_read key

  -- a key that is encrypted without an error is read back
  encrypted_again :
      (entropy : Option Bytes) (key key' : SshKey)
      → ((iv : Bytes) → entropy ≡ some iv → length iv ≡ 16)
      → outcome (ssh_key_encrypt env.suite entropy env.aes_key key) ≡ ok key'
      → as_read key' ≡ key
  unfolding ssh_key_encrypt ssh_key_decrypt encrypt
  encrypted_again entropy key key' sixteen e = elim (Bool-cases (env.aes_key == "")) [
    | inl a ↦ ground arith
    | inr a ↦ elim (Option-cases (env.suite.cipher (env.suite.bytes env.aes_key))) [
      | inl n ↦ absurd (ground arith)
      | inr (block, hb) ↦ elim (Option-cases entropy) [
        | inl n ↦ absurd (ground arith)
        | inr (iv, hi) ↦
            ap as_read (
              sym (fine_outcome _ key' e)
              ∙ ap (λ o. (ssh_key_encrypt env.suite o env.aes_key key).0) hi)
            ∙ (ssh_key_decrypt-ssh_key_encrypt env.suite iv env.aes_key key block hb
                (sixteen iv hi)).0
      ]
    ]
  ]

  recoded :
      (key key' : SshKey)
      → recode_key g env myself c key ≡ ok key'
      → as_read_backup key' ≡ as_read key
  unfolding recode_key
  recoded key key' e = elim (Bool-cases (c.bool "decrypt")) [
    | inl t ↦ rw (t) (ground arith)
    | inr t ↦ rw (t) (
        encrypted_again (env.entropy (as_read key).id) (as_read key) key' (size (as_read key).id)
          (ground arith))
  ]

  -- A backup that is made holds every private key of the table once, in the order of the rows, and as
  -- it reads in the server, whether it is stored in plain or encrypted, and under whichever vector:
  -- with the flag `decrypt` it is there in clear, and else it is decrypted with the key of the server, as
  -- SSHKeyDecrypt decrypts the stored one. The vectors that the random source gives have 16 bytes.
  pub backup_keys :
      (b : Backup) (s s' : S)
      → config_backup g env myself c s ≡ (ok (backup b), s')
      → map as_read_backup b.ssh_keys ≡ map as_read (g.ssh_keys.rows s)
  unfolding config_backup
  backup_keys b s s' e = elim (Result-cases (g.ssh_keys.find (λ _. true) s)) [
    | inl (x, q) ↦ absurd (ground arith)
    | inr (l, q) ↦
        let rows : l ≡ g.ssh_keys.rows s =
          g.ssh_keys.find_lem (λ _. true) s q ∙ filter-true (g.ssh_keys.rows s) in
        let made : convert (recode_key g env myself c) l ≡ ok b.ssh_keys = ground arith in
        map-convert (recode_key g env myself c) as_read_backup as_read recoded l b.ssh_keys made
        ∙ ap (map as_read) rows
  ]
