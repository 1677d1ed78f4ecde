-- ===== src/Lookup/Tests.antt =====
-- Examples of the lookups by identifiers.
use sshportal.Base.{ℕ, String, ◌≡◌, refl, Bool, true, false, [], ◌∷◌, any, ◌==◌}
use sshportal.Strconv.{is_int}
use sshportal.Strconv.Printing.{decimal}
use sshportal.Lookup.{Columns, holds, generic_name_or_id, users_by_identifiers, sort_out}
use sshportal.Lookup.Selection.{names, holds-generic_name_or_id}

abbrev same : String → ℕ → Bool
same s n = s == decimal n

abbrev bob : Columns
bob = record { id = 2; name = "bob"; email = "bob@example.com"; user_id = 0 }

lookups : Unit {0}
unfolding holds generic_name_or_id users_by_identifiers sort_out is_int decimal any
lookups = tt

by_id_or_name : holds same (generic_name_or_id ("2" ∷ "web" ∷ [])) bob ≡ true
unfolding lookups
by_id_or_name = refl

mixed_missed : holds same (users_by_identifiers ("2" ∷ "web" ∷ [])) bob ≡ false
unfolding lookups
mixed_missed = refl

holds-generic_name_or_id_example :
    holds same (generic_name_or_id ("2" ∷ "web" ∷ [])) bob ≡ any (names same bob) ("2" ∷ "web" ∷ [])
holds-generic_name_or_id_example = holds-generic_name_or_id same bob ("2" ∷ "web" ∷ [])
