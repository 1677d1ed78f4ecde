-- ===== src/Access/Sorting.antt =====
-- Two ways in which the runtime may order the entries of `aclMap`: as they were entered, and the
-- other way round, with an insertion sort behind either.
use mathlib.Core.List.{reverse, reverse_perm}
use mathlib.Core.List.Perm
use sshportal.Base.{
  ℕ, ◌≤◌, List, [], ◌∷◌, Perm, All, ltb, arith, inl, inr, Bool-cases, if◌then◌else◌,
}
use sshportal.Models.{Acl}
use sshportal.Access.Acls.{Runtime, IsSorted}

unfoldable pub insert : Acl → List Acl → List Acl
insert a [] = a ∷ []
insert a (b ∷ l) = if ltb b.weight a.weight then b ∷ insert a l else a ∷ b ∷ l

unfoldable pub insertion_sort : List Acl → List Acl
unfolding insert
insertion_sort [] = []
insertion_sort (a ∷ l) = insert a (insertion_sort l)

insert-perm : (a : Acl) (l : List Acl) → Perm (insert a l) (a ∷ l)
unfolding insert
insert-perm a [] = Perm.refl _
insert-perm a (b ∷ l) = elim (Bool-cases (ltb b.weight a.weight)) [
  | inl e ↦ rw e (Perm.trans (Perm.cons b (insert-perm a l)) (Perm.swap a b l))
  | inr e ↦ rw e (Perm.refl _)
]

pub insertion_sort-perm : (l : List Acl) → Perm (insertion_sort l) l
unfolding insertion_sort
insertion_sort-perm [] = Perm.refl _
insertion_sort-perm (a ∷ l) =
    Perm.trans (insert-perm a (insertion_sort l)) (Perm.cons a (insertion_sort-perm l))

abbrev Above : ℕ → List Acl → Type 0
Above w = All (λ b. w ≤ b.weight)

Above-le : (v w : ℕ) (l : List Acl) → v ≤ w → Above w l → Above v l
Above-le v w [] h k = tt
Above-le v w (b ∷ l) h k = (omega arith, Above-le v w l h k.1)

insert-Above : (w : ℕ) (a : Acl) (l : List Acl) → w ≤ a.weight → Above w l → Above w (insert a l)
unfolding insert
insert-Above w a [] h k = (h, tt)
insert-Above w a (b ∷ l) h k = elim (Bool-cases (ltb b.weight a.weight)) [
  | inl e ↦ rw e (k.0, insert-Above w a l h k.1)
  | inr e ↦ rw e (h, k)
]

insert-IsSorted : (a : Acl) (l : List Acl) → IsSorted l → IsSorted (insert a l)
unfolding insert
insert-IsSorted a [] s = (tt, tt)
insert-IsSorted a (b ∷ l) s = elim (Bool-cases (ltb b.weight a.weight)) [
  | inl e ↦ rw e (insert-Above b.weight a l (ground arith) s.0, insert-IsSorted a l s.1)
  | inr e ↦ rw e ((ground arith, Above-le a.weight b.weight l (ground arith) s.0), s)
]

pub insertion_sort-IsSorted : (l : List Acl) → IsSorted (insertion_sort l)
unfolding insertion_sort
insertion_sort-IsSorted [] = tt
insertion_sort-IsSorted (a ∷ l) = insert-IsSorted a _ (insertion_sort-IsSorted l)

abbrev pub in_order : Runtime
in_order = record {
  range = λ l. l;
  range-perm = λ l. Perm.refl l;
  sort = insertion_sort;
  sort-perm = insertion_sort-perm;
  sort-IsSorted = insertion_sort-IsSorted;
}

abbrev pub backwards : Runtime
backwards = record in_order { range = reverse; range-perm = reverse_perm }
