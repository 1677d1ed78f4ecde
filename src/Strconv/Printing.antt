-- ===== src/Strconv/Printing.antt =====
-- The `%d` verb of fmt on an unsigned number, and that ParseUint reads it back.
use Prim.Native.String.{◌∷◌ as cons}
use text.Mathlib.TextLemmas.{cons≢nil}
use sshportal.Base.{
  ◌≢◌, equals_not, Lacks, ℕ, zero, suc, ◌+◌, ◌*◌, ◌/◌, ◌%◌, ◌^◌, ◌<◌, Char, code, String, ◌≡◌, refl,
  some, arith, ltb, inl, inr, Bool-cases, ◌∙◌, ap, if◌then◌else◌,
}
use sshportal.Strconv.{parse_digits, parse_uint}

unfoldable pub digit : ℕ → Char
digit zero = "0"
digit (suc zero) = "1"
digit (suc (suc zero)) = "2"
digit (suc (suc (suc zero))) = "3"
digit (suc (suc (suc (suc zero)))) = "4"
digit (suc (suc (suc (suc (suc zero))))) = "5"
digit (suc (suc (suc (suc (suc (suc zero)))))) = "6"
digit (suc (suc (suc (suc (suc (suc (suc zero))))))) = "7"
digit (suc (suc (suc (suc (suc (suc (suc (suc zero)))))))) = "8"
digit _ = "9"

-- the digits of `n` in front of `acc`; `n + 1` rounds are more than enough
unfoldable pub print_digits : ℕ → ℕ → String → String
print_digits zero n acc = acc
print_digits (suc f) n acc =
    let rest = print_digits f (n / 10) (cons (digit (n % 10)) acc) in
    if ltb n 10 then cons (digit n) acc else rest

unfoldable pub decimal : ℕ → String
unfolding print_digits digit
decimal n = print_digits (suc n) n ""

code-digit : (d : ℕ) → d < 10 → code (digit d) ≡ b'0' + d
unfolding digit
code-digit zero h = refl
code-digit (suc zero) h = refl
code-digit (suc (suc zero)) h = refl
code-digit (suc (suc (suc zero))) h = refl
code-digit (suc (suc (suc (suc zero)))) h = refl
code-digit (suc (suc (suc (suc (suc zero))))) h = refl
code-digit (suc (suc (suc (suc (suc (suc zero)))))) h = refl
code-digit (suc (suc (suc (suc (suc (suc (suc zero))))))) h = refl
code-digit (suc (suc (suc (suc (suc (suc (suc (suc zero)))))))) h = refl
code-digit (suc (suc (suc (suc (suc (suc (suc (suc (suc zero))))))))) h = refl
code-digit (suc (suc (suc (suc (suc (suc (suc (suc (suc (suc d)))))))))) h = absurd (omega arith)

parse-digit :
    (limit n d : ℕ) (s : String)
    → d < 10
    → n * 10 + d < limit
    → parse_digits limit n (cons (digit d) s) ≡ parse_digits limit (n * 10 + d) s
unfolding parse_digits
parse-digit limit n d s h k = ground (arith, code-digit d h)

parse-print_digits :
    (limit f n : ℕ) (acc : String)
    → n < f
    → n < limit
    → parse_digits limit 0 (print_digits f n acc) ≡ parse_digits limit n acc
unfolding print_digits
parse-print_digits limit zero n acc h k = absurd (omega arith)
parse-print_digits limit (suc f) n acc h k = elim (Bool-cases (ltb n 10)) [
  | inl e ↦ rw e (
      parse-digit limit 0 n acc (ground arith) (omega arith)
      ∙ ap (λ m. parse_digits limit m acc) (omega arith))
  | inr e ↦ rw e (
      parse-print_digits limit f (n / 10) (cons (digit (n % 10)) acc) (ground arith) (omega arith)
      ∙ parse-digit limit (n / 10) (n % 10) acc (omega arith) (omega arith)
      ∙ ap (λ m. parse_digits limit m acc) (omega arith))
]

print_digits-ne-nil : (f n : ℕ) (acc : String) → n < f → print_digits f n acc ≢ ""
unfolding print_digits
print_digits-ne-nil zero n acc h = absurd (omega arith)
print_digits-ne-nil (suc f) n acc h = elim (Bool-cases (ltb n 10)) [
  | inl e ↦ rw e cons≢nil
  | inr e ↦ rw e (print_digits-ne-nil f (n / 10) (cons (digit (n % 10)) acc) (ground arith))
]

-- ParseUint reads back what `%d` prints, for every uint64.
pub parse_uint-decimal : (n : ℕ) → n < 2 ^ 64 → parse_uint (decimal n) ≡ some n
unfolding parse_uint decimal
parse_uint-decimal n h =
    rw (equals_not (print_digits-ne-nil (suc n) n "" (omega arith)))
      (parse-print_digits (2 ^ 64) (suc n) n "" (omega arith) h)

pub decimal-ne-nil : (n : ℕ) → decimal n ≢ ""
unfolding decimal
decimal-ne-nil n = print_digits-ne-nil (suc n) n "" (omega arith)

digit-ne-colon : (d : ℕ) → d < 10 → code (digit d) ≢ b':'
digit-ne-colon d h = omega (arith, code-digit d h)

print_digits-Lacks_colon :
    (f n : ℕ) (acc : String) → Lacks b':' acc → Lacks b':' (print_digits f n acc)
unfolding print_digits
print_digits-Lacks_colon zero n acc h = h
print_digits-Lacks_colon (suc f) n acc h = elim (Bool-cases (ltb n 10)) [
  | inl e ↦ rw e (digit-ne-colon n (ground arith), h)
  | inr e ↦ rw e (print_digits-Lacks_colon f (n / 10) _ (digit-ne-colon (n % 10) (omega arith), h))
]

pub decimal-Lacks_colon : (n : ℕ) → Lacks b':' (decimal n)
unfolding decimal
decimal-Lacks_colon n = print_digits-Lacks_colon (suc n) n "" tt
