-- ===== src/Crypto/Toy.antt =====
-- A suite small enough to compute with, for the examples: texts and bytes are coded in unary, and a
-- block of the cipher repeats one byte.
use Prim.Native.Nat.{Ordering, compare as compare_ℕ}
use Prim.Native.Char.{char, IsLt, IsScalar}
use Prim.Native.String.{◌∷◌ as push, [] as no_text}
use mathlib.Core.Path.{subst}
use mathlib.Core.Option.{some-injective}
use sshportal.Base.{
  ℕ, zero, suc, ◌+◌, ◌%◌, ◌<◌, Char, code, String, ◌≡◌, refl, ap, ◌∙◌, Bool, true, false, Option,
  none, some, [], ◌∷◌, length, All, ltb, eqb, arith,
}
use sshportal.Models.{Bytes}
use sshportal.Crypto.{Suite}

-- IsScalar, in the clauses of the built-in module's own
abbrev Both : Ordering → Ordering → Type 0
Both Ordering.lt o = IsLt o
Both Ordering.eq _ = ⊥
Both Ordering.gt _ = ⊥

abbrev Scalar : Ordering → Ordering → Ordering → Type 0
Scalar Ordering.lt _ _ = Unit
Scalar Ordering.eq o p = Both o p
Scalar Ordering.gt o p = Both o p

abbrev less : (o : Ordering) → Option (IsLt o)
less Ordering.lt = some tt
less Ordering.eq = none
less Ordering.gt = none

abbrev both : (o p : Ordering) → Option (Both o p)
both Ordering.lt o = less o
both Ordering.eq _ = none
both Ordering.gt _ = none

abbrev scalar : (o p q : Ordering) → Option (Scalar o p q)
scalar Ordering.lt _ _ = some tt
scalar Ordering.eq o p = both o p
scalar Ordering.gt o p = both o p

both-some : (o p : Ordering) (w : Both o p) → both o p ≡ some w
both-some Ordering.lt Ordering.lt w = refl
both-some Ordering.lt Ordering.eq w = elim w [ ]
both-some Ordering.lt Ordering.gt w = elim w [ ]
both-some Ordering.eq _ w = elim w [ ]
both-some Ordering.gt _ w = elim w [ ]

scalar-some : (o p q : Ordering) (w : Scalar o p q) → scalar o p q ≡ some w
scalar-some Ordering.lt _ _ w = refl
scalar-some Ordering.eq o p w = both-some o p w
scalar-some Ordering.gt o p w = both-some o p w

abbrev add_char : (n : ℕ) → Option (IsScalar n) → String → String
add_char n none s = s
add_char n (some p) s = push (char n p) s

abbrev of_code : ℕ → String → String
of_code n = add_char n (scalar (compare_ℕ n 55296) (compare_ℕ 57343 n) (compare_ℕ n 1114112))

of_code-code : (c : Char) (s : String) → of_code (code c) s ≡ push c s
of_code-code (char n p) s =
    ap (λ o. add_char n o s)
      (scalar-some (compare_ℕ n 55296) (compare_ℕ 57343 n) (compare_ℕ n 1114112) p)

abbrev ones : ℕ → Bytes → Bytes
ones zero b = b
ones (suc n) b = 1 ∷ ones n b

abbrev pub unary : String → Bytes
unary no_text = []
unary (push c s) = ones (code c) (0 ∷ unary s)

abbrev pub reading : ℕ → Bytes → String
reading n [] = no_text
reading n (zero ∷ b) = of_code n (reading 0 b)
reading n (suc _ ∷ b) = reading (suc n) b

reading-ones : (m n : ℕ) (b : Bytes) → reading m (ones n (0 ∷ b)) ≡ of_code (m + n) (reading 0 b)
reading-ones m zero b = let h : m ≡ m + 0 = omega arith in ap (λ k. of_code k (reading 0 b)) h
reading-ones m (suc n) b =
    let h : suc m + n ≡ m + suc n = omega arith in
    reading-ones (suc m) n b ∙ ap (λ k. of_code k (reading 0 b)) h

pub reading-unary : (s : String) → reading 0 (unary s) ≡ s
reading-unary no_text = refl
reading-unary (push c s) =
    let h : 0 + code c ≡ code c = omega arith in
    reading-ones 0 (code c) (unary s)
    ∙ ap (λ k. of_code k (reading 0 (unary s))) h
    ∙ ap (of_code (code c)) (reading-unary s)
    ∙ of_code-code c s

ones-All : (n : ℕ) (b : Bytes) → All (λ x. x < 256) b → All (λ x. x < 256) (ones n b)
ones-All zero b h = h
ones-All (suc n) b h = (omega arith, ones-All n b h)

pub unary-All : (s : String) → All (λ x. x < 256) (unary s)
unary-All no_text = tt
unary-All (push c s) = ones-All (code c) (0 ∷ unary s) (omega arith, unary-All s)

-- the other way: a list of numbers as a text
abbrev strokes : ℕ → String → String
strokes zero s = s
strokes (suc n) s = push "|" (strokes n s)

abbrev pub tally : Bytes → String
tally [] = no_text
tally (n ∷ b) = strokes n (push "." (tally b))

abbrev pub count_from : ℕ → String → Bytes
count_from n no_text = []
count_from n (push c s) = elim (eqb (code c) 46) [
  | true ↦ n ∷ count_from 0 s
  | false ↦ count_from (suc n) s
]

count_from-strokes :
    (m n : ℕ) (s : String) → count_from m (strokes n (push "." s)) ≡ (m + n) ∷ count_from 0 s
count_from-strokes m zero s = let h : m ≡ m + 0 = omega arith in ap (λ k. k ∷ count_from 0 s) h
count_from-strokes m (suc n) s =
    let h : suc m + n ≡ m + suc n = omega arith in
    count_from-strokes (suc m) n s ∙ ap (λ k. k ∷ count_from 0 s) h

pub count-tally : (b : Bytes) → count_from 0 (tally b) ≡ b
count-tally [] = refl
count-tally (n ∷ b) =
    let h : 0 + n ≡ n = omega arith in
    count_from-strokes 0 n (tally b)
    ∙ ap (λ k. k ∷ count_from 0 (tally b)) h
    ∙ ap (λ l. n ∷ l) (count-tally b)

abbrev pub repeat : ℕ → ℕ → Bytes
repeat zero x = []
repeat (suc n) x = x ∷ repeat n x

length-repeat : (n x : ℕ) → length (repeat n x) ≡ n
length-repeat zero x = refl
length-repeat (suc n) x = ap suc (length-repeat n x)

repeat-All : (n x : ℕ) → x < 256 → All (λ y. y < 256) (repeat n x)
repeat-All zero x h = tt
repeat-All (suc n) x h = (h, repeat-All n x h)

abbrev sum : Bytes → ℕ
sum [] = 0
sum (x ∷ b) = x + sum b

abbrev pub toy_block : Bytes → Bytes → Bytes
toy_block key b = repeat 16 ((sum key + sum b) % 256)

abbrev unless_short : Bool → Bytes → Option (Bytes → Bytes)
unless_short true key = none
unless_short false key = some (toy_block key)

abbrev pub toy_cipher : Bytes → Option (Bytes → Bytes)
toy_cipher key = unless_short (ltb (length key) 16) key

abbrev pub Sound : (Bytes → Bytes) → Type 0
Sound e = (b : Bytes) → (length (e b) ≡ 16) × All (λ x. x < 256) (e b)

toy_block-Sound : (key : Bytes) → Sound (toy_block key)
toy_block-Sound key b = (
  length-repeat 16 ((sum key + sum b) % 256),
  repeat-All 16 ((sum key + sum b) % 256) (omega arith),
)

unless_short-Sound :
    (t : Bool) (key : Bytes) (e : Bytes → Bytes) → unless_short t key ≡ some e → Sound e
unless_short-Sound true key e h = absurd cc
unless_short-Sound false key e h =
    subst Sound (some-injective (toy_block key) e h) (toy_block-Sound key)

pub toy_cipher-Sound : (key : Bytes) (e : Bytes → Bytes) → toy_cipher key ≡ some e → Sound e
toy_cipher-Sound key e h = unless_short-Sound (ltb (length key) 16) key e h

pub toy_cipher-takes :
    (key : Bytes) → ltb (length key) 16 ≡ false → toy_cipher key ≡ some (toy_block key)
toy_cipher-takes key h = ap (λ t. unless_short t key) h

unfoldable pub toy : Suite
toy = record {
  bytes = unary;
  text = reading 0;
  text-bytes = reading-unary;
  bytes-empty = refl;
  bytes-All = unary-All;
  cipher = toy_cipher;
  cipher_length = λ key {e} b h. (toy_cipher-Sound key e h b).0;
  cipher_bytes = λ key {e} b h. (toy_cipher-Sound key e h b).1;
  encode = tally;
  decode = count_from 0;
  decode-encode = count-tally;
  decode-empty = refl;
}
