-- ===== src/Lookup/Selection.antt =====
-- What the lookups by identifiers select.
use sshportal.Base.{
  ℕ, String, ◌≡◌, refl, Bool, true, false, not, ◌||◌, List, [], ◌∷◌, any, length, ltb, ◌==◌, arith,
  if◌then◌else◌,
}
use sshportal.Strconv.{is_int}
use sshportal.Lookup.{Columns, holds, sort_out, generic_name_or_id, users_by_identifiers}

module _ (same : String → ℕ → Bool) (c : Columns) where
  -- an identifier names a row by its id, where it is a number, and else by its name
  abbrev pub names : String → Bool
  names s = if is_int s then same s c.id else c.name == s

  split-any :
      (l : List String)
      → (any (λ s. same s c.id) (sort_out l).0 || any (λ s. c.name == s) (sort_out l).1)
        ≡ any names l
  unfolding any sort_out
  split-any [] = refl
  split-any (s ∷ l) = ground (arith, split-any l)

  nothing_there : (p : String → Bool) (l : List String) → ltb 0 (length l) ≡ false → any p l ≡ false
  unfolding any
  nothing_there p [] h = refl
  nothing_there p (s ∷ l) h = ground arith

  -- GenericNameOrID selects a row exactly if one of the identifiers names it: by its id where the
  -- identifier is a number, and by its name otherwise. No identifiers select nothing.
  pub holds-generic_name_or_id :
      (l : List String) → holds same (generic_name_or_id l) c ≡ any names l
  unfolding generic_name_or_id holds
  holds-generic_name_or_id l = ground (
    arith,
    split-any l,
    nothing_there (λ s. same s c.id) (sort_out l).0,
    nothing_there (λ s. c.name == s) (sort_out l).1,
  )

  sorted_ids : (l : List String) → any is_int l ≡ ltb 0 (length (sort_out l).0)
  unfolding any sort_out
  sorted_ids [] = refl
  sorted_ids (s ∷ l) = ground (arith, sorted_ids l)

  sorted_names : (l : List String) → any (λ s. not (is_int s)) l ≡ ltb 0 (length (sort_out l).1)
  unfolding any sort_out
  sorted_names [] = refl
  sorted_names (s ∷ l) = ground (arith, sorted_names l)

  any-or :
      (l : List String)
      → (any (λ s. c.email == s) l || any (λ s. c.name == s) l)
        ≡ any (λ s. c.email == s || c.name == s) l
  unfolding any
  any-or [] = refl
  any-or (s ∷ l) = ground (arith, any-or l)

  -- UsersByIdentifiers, given a number and another identifier at once, selects by e-mail and by name
  -- alone: whatever the row's id is, the number does not find it.
  pub holds-users_by_identifiers :
      (l : List String)
      → any is_int l ≡ true
      → any (λ s. not (is_int s)) l ≡ true
      → holds same (users_by_identifiers l) c ≡ any (λ s. c.email == s || c.name == s) l
  unfolding users_by_identifiers holds
  holds-users_by_identifiers l i n = ground (arith, sorted_ids l, sorted_names l, any-or l)
