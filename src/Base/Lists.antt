-- ===== src/Base/Lists.antt =====
-- Lists over the native numbers, and predicates on lists by recursion.
use Prim.Native.Nat.{ℕ, zero, suc, ◌+◌}
use mathlib.Core.Path.{◌≡◌, refl, sym, subst}
use mathlib.Core.Logic.Or
use mathlib.Core.List.{
  List, [], ◌∷◌, ◌++◌, Mem, not-mem-nil, mem-cons, mem-cons_self, mem-cons_of_mem,
}
use mathlib.Core.List.{map}
use mathlib.Core.Logic.{◌⊎◌, inl, inr}
use mathlib.Core.Bool.{Bool, true, false, ◌||◌}
use mathlib.Core.Option
use mathlib.Core.Option.{Option, none, some}
use sshportal.Base.Tests.{Bool-cases, if◌then◌else◌}
use native.Mathlib.Omega.{arith}

module _ {ℓ} {A : Type ℓ} where
  abbrev pub length : List A → ℕ
  length [] = 0
  length (x ∷ xs) = suc (length xs)

  abbrev pub take : ℕ → List A → List A
  take zero xs = []
  take (suc n) [] = []
  take (suc n) (x ∷ xs) = x ∷ take n xs

  abbrev pub drop : ℕ → List A → List A
  drop zero xs = xs
  drop (suc n) [] = []
  drop (suc n) (x ∷ xs) = drop n xs

  abbrev pub All {κ} : (A → Type κ) → List A → Type κ
  All P [] = Unit
  All P (x ∷ xs) = P x × All P xs

  pub length-append : (xs ys : List A) → length (xs ++ ys) ≡ length xs + length ys
  length-append [] ys = omega arith
  length-append (x ∷ xs) ys = omega (arith, length-append xs ys)

module _ {ℓ κ} {A : Type ℓ} (P : A → Type κ) where
  pub All-mem : ((a : A) → IsProp (P a)) → (l : List A) → All P l → {a : A} → Mem a l → P a
  All-mem p [] h m = absurd (not-mem-nil m)
  All-mem p (x ∷ l) h {a} m =
      Or.elim (p a) (mem-cons.0 m) (λ e. subst P (sym e) h.0) (All-mem p l h.1)

  pub All-of_mem : (l : List A) → ((a : A) → Mem a l → P a) → All P l
  All-of_mem [] h = tt
  All-of_mem (x ∷ l) h = (h x mem-cons_self, All-of_mem l (λ a m. h a (mem-cons_of_mem x m)))

module _ {ℓ} {A : Type ℓ} where
  -- the first element that passes a test
  unfoldable pub find : (A → Bool) → List A → Option A
  find p [] = none
  find p (x ∷ xs) = if p x then some x else find p xs

  pub find-append :
      (p : A → Bool) (xs ys : List A) → find p xs ≡ none → find p (xs ++ ys) ≡ find p ys
  unfolding find
  find-append p [] ys h = refl
  find-append p (x ∷ xs) ys h = ground (arith, find-append p xs ys)

  pub find_sound :
      (p : A → Bool) (xs : List A) {a : A} → find p xs ≡ some a → Mem a xs × (p a ≡ true)
  unfolding find
  find_sound p [] h = cc
  find_sound p (x ∷ xs) {a} h = elim (Bool-cases (p x)) [
    | inl e ↦
        (subst (λ y. Mem y (x ∷ xs)) (here e) mem-cons_self, subst (λ y. p y ≡ true) (here e) e)
    | inr e ↦ let (m, t) = find_sound p xs {a = a} (rw (e, find) at h) in (mem-cons_of_mem x m, t)
  ]
    where
      here : p x ≡ true → x ≡ a
      here e = ground arith

  -- A map that does not change the test finds the image of what was found.
  pub find-map :
      (p : A → Bool) (f : A → A) (xs : List A)
      → ((a : A) → p (f a) ≡ p a)
      → find p (map f xs) ≡ Option.map f (find p xs)
  unfolding find
  find-map p f [] h = refl
  find-map p f (x ∷ xs) h = ground (arith, h x, find-map p f xs h)

module _ {ℓ} {A : Type ℓ} where
  pub take-append : (xs ys : List A) → take (length xs) (xs ++ ys) ≡ xs
  take-append [] ys = refl
  take-append (x ∷ xs) ys = rw (take-append xs ys)

  pub drop-append : (xs ys : List A) → drop (length xs) (xs ++ ys) ≡ ys
  drop-append [] ys = refl
  drop-append (x ∷ xs) ys = drop-append xs ys

  pub List-cases : (l : List A) → (l ≡ []) ⊎ ((x : A) × (xs : List A) × (l ≡ x ∷ xs))
  List-cases [] = inl refl
  List-cases (x ∷ xs) = inr (x, xs, refl)

module _ {ℓ} {A : Type ℓ} where
  -- the elements that pass a test
  unfoldable pub filter : (A → Bool) → List A → List A
  filter p [] = []
  filter p (x ∷ xs) = let rest = filter p xs in if p x then x ∷ rest else rest

  unfoldable pub any : (A → Bool) → List A → Bool
  any p [] = false
  any p (x ∷ xs) = p x || any p xs

  pub filter-All {κ} : (P : A → Type κ) (p : A → Bool) (l : List A) → All P l → All P (filter p l)
  unfolding filter
  filter-All P p [] h = tt
  filter-All P p (x ∷ l) h = elim (Bool-cases (p x)) [
    | inl e ↦ rw e (h.0, filter-All P p l h.1)
    | inr e ↦ rw e (filter-All P p l h.1)
  ]

  pub append-All {κ} : (P : A → Type κ) (l m : List A) → All P l → All P m → All P (l ++ m)
  append-All P [] m h k = k
  append-All P (x ∷ l) m h k = (h.0, append-All P l m h.1 k)
