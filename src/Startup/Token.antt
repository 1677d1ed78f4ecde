-- ===== src/Startup/Token.antt =====
-- The texts that randStringBytes makes.
use Prim.Native.String.{[] as no_text, ◌∷◌ as push}
use mathlib.Core.Path.{subst}
use sshportal.Base.{
  ℕ, zero, suc, Char, String, ◌≡◌, refl, sym, ap, inl, inr, ◌∙◌, Bool, true, false, ◌||◌, eqb, code,
  Option, none, some, Result, ok, err, Result-cases, arith,
}
use sshportal.Startup.{letter_bytes, letter, prefixed, rand_string_bytes}

abbrev pub occurs : Char → String → Bool
occurs c no_text = false
occurs c (push d s) = eqb (code d) (code c) || occurs c s

-- a text of that length, all of its letters from letter_bytes
abbrev pub IsToken : ℕ → String → Type 0
IsToken zero no_text = Unit
IsToken zero (push c s) = ⊥
IsToken (suc n) no_text = ⊥
IsToken (suc n) (push c s) = (occurs c letter_bytes ≡ true) × IsToken n s

letter-occurs : (n : ℕ) (s : String) (c : Char) → letter n s ≡ some c → occurs c s ≡ true
unfolding letter
letter-occurs n no_text c h = absurd cc
letter-occurs zero (push d s) c h =
    let same : d ≡ c = cc in let codes : code d ≡ code c = ap code same in ground arith
letter-occurs (suc n) (push d s) c h = ground (arith, letter-occurs n s c h)

goes_on :
    (draw : ℕ → Result String ℕ) (n r : ℕ)
    → draw 0 ≡ ok r
    → rand_string_bytes draw (suc n)
      ≡ prefixed (letter r letter_bytes) (rand_string_bytes (λ i. draw (suc i)) n)
unfolding rand_string_bytes
goes_on draw n r q = ground arith

one_more :
    (n r : ℕ) (l : Option Char) (rest : Result String String) (t : String)
    → letter r letter_bytes ≡ l
    → ((s : String) → rest ≡ ok s → IsToken n s)
    → prefixed l rest ≡ ok t
    → IsToken (suc n) t
one_more n r (some c) (ok s) t h ih e =
    let made : push c s ≡ t = cc in
    subst (IsToken (suc n)) made (letter-occurs r letter_bytes c h, ih s refl)
one_more n r none (ok s) t h ih e = absurd cc
one_more n r (some c) (err x) t h ih e = absurd cc
one_more n r none (err x) t h ih e = absurd cc

-- Where it succeeds, randStringBytes makes a text of the wanted length out of its 62 letters.
pub rand_string_bytes_lem :
    (draw : ℕ → Result String ℕ) (n : ℕ) (t : String)
    → rand_string_bytes draw n ≡ ok t
    → IsToken n t
unfolding rand_string_bytes
rand_string_bytes_lem draw zero t e = let empty : "" ≡ t = cc in subst (IsToken 0) empty tt
rand_string_bytes_lem draw (suc n) t e = elim (Result-cases (draw 0)) [
  | inl (x, q) ↦ absurd (ground arith)
  | inr (r, q) ↦
      one_more n r (letter r letter_bytes) (rand_string_bytes (λ i. draw (suc i)) n) t refl
        (λ s k. rand_string_bytes_lem (λ i. draw (suc i)) n s k) (sym (goes_on draw n r q) ∙ e)
]
