-- ===== src/Crypto/Cfb.antt =====
-- crypto/cipher's CFB mode, as XORKeyStream runs it: `next` is the input of the next block, `out` what
-- is unused of the key stream.
use Prim.Native.Nat.{bit_xor}
use mathlib.Core.Path.{ap₂, subst}
use sshportal.Base.{
  ◌≢◌, inl, inr, List-cases, ℕ, zero, suc, ◌<◌, ◌≡◌, refl, ap, ◌∙◌, Bool, true, ◌&&◌, [], ◌∷◌, ◌++◌,
  All, arith, eqb, eqb_iff,
}
use sshportal.Models.{Bytes}

-- one byte: the key stream is refilled when it is used up, and `next` collects the ciphertext
unfoldable pub encrypt_stream : (Bytes → Bytes) → Bytes → Bytes → Bytes → Bytes
encrypt_stream block next out [] = []
encrypt_stream block next (k ∷ out) (p ∷ ps) =
    bit_xor p k ∷ encrypt_stream block (next ++ bit_xor p k ∷ []) out ps
encrypt_stream block next [] (p ∷ ps) = elim (block next) [
  | [] ↦ []
  | k ∷ out ↦ bit_xor p k ∷ encrypt_stream block (bit_xor p k ∷ []) out ps
]

unfoldable pub decrypt_stream : (Bytes → Bytes) → Bytes → Bytes → Bytes → Bytes
decrypt_stream block next out [] = []
decrypt_stream block next (k ∷ out) (c ∷ cs) =
    bit_xor c k ∷ decrypt_stream block (next ++ c ∷ []) out cs
decrypt_stream block next [] (c ∷ cs) = elim (block next) [
  | [] ↦ []
  | k ∷ out ↦ bit_xor c k ∷ decrypt_stream block (c ∷ []) out cs
]

every : ℕ → (ℕ → Bool) → Bool
every zero p = true
every (suc n) p = p n && every n p

every_sound : (n : ℕ) (p : ℕ → Bool) (x : ℕ) → every n p ≡ true → x < n → p x ≡ true
unfolding every
every_sound zero p x h lt = absurd (omega arith)
every_sound (suc n) p x h lt = ground (arith, every_sound n p x)

xor_table : every 256 (λ k. every 256 (λ p. eqb (bit_xor (bit_xor p k) k) p)) ≡ true
unfolding every
xor_table = refl

xor_twice : (p k : ℕ) → p < 256 → k < 256 → bit_xor (bit_xor p k) k ≡ p
xor_twice p k hp hk = (eqb_iff _ p).0 (
    every_sound 256 (λ q. eqb (bit_xor (bit_xor q k) k) q) p
      (every_sound 256 (λ j. every 256 (λ q. eqb (bit_xor (bit_xor q j) j) q)) k xor_table hk) hp)

encrypt_refill :
    (block : Bytes → Bytes) (next : Bytes) (p : ℕ) (ps : Bytes) {k : ℕ} {out : Bytes}
    → block next ≡ k ∷ out
    → encrypt_stream block next [] (p ∷ ps)
      ≡ bit_xor p k ∷ encrypt_stream block (bit_xor p k ∷ []) out ps
unfolding encrypt_stream
encrypt_refill block next p ps e = rw (e, encrypt_stream) refl

decrypt_refill :
    (block : Bytes → Bytes) (next : Bytes) (c : ℕ) (cs : Bytes) {k : ℕ} {out : Bytes}
    → block next ≡ k ∷ out
    → decrypt_stream block next [] (c ∷ cs) ≡ bit_xor c k ∷ decrypt_stream block (c ∷ []) out cs
unfolding decrypt_stream
decrypt_refill block next c cs e = rw (e, decrypt_stream) refl

module _ (block : Bytes → Bytes) (full : (b : Bytes) → block b ≢ [])
    (octets : (b : Bytes) → All (λ x. x < 256) (block b)) where
  -- Decrypting undoes encrypting, from any state of the key stream, over a cipher whose blocks are not
  -- empty and hold bytes.
  pub decrypt_stream-encrypt_stream :
      (next out plain : Bytes)
      → All (λ x. x < 256) out
      → All (λ x. x < 256) plain
      → decrypt_stream block next out (encrypt_stream block next out plain) ≡ plain
  unfolding encrypt_stream decrypt_stream
  decrypt_stream-encrypt_stream next [] [] ho hp = refl
  decrypt_stream-encrypt_stream next (k ∷ out) [] ho hp = refl
  decrypt_stream-encrypt_stream next (k ∷ out) (p ∷ ps) ho hp =
      ap₂ ◌∷◌ (xor_twice p k hp.0 ho.0)
        (decrypt_stream-encrypt_stream (next ++ bit_xor p k ∷ []) out ps ho.1 hp.1)
  decrypt_stream-encrypt_stream next [] (p ∷ ps) ho hp = elim (List-cases (block next)) [
    | inl e ↦ absurd (full next e)
    | inr (k, out, e) ↦
        let h : All (λ x. x < 256) (k ∷ out) = subst (All (λ x. x < 256)) e (octets next) in
        ap (decrypt_stream block next []) (encrypt_refill block next p ps e)
        ∙ decrypt_refill block next (bit_xor p k) (encrypt_stream block (bit_xor p k ∷ []) out ps) e
        ∙ ap₂ ◌∷◌ (xor_twice p k hp.0 h.0)
            (decrypt_stream-encrypt_stream (bit_xor p k ∷ []) out ps h.1 hp.1)
  ]
