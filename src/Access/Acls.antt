-- ===== src/Access/Acls.antt =====
-- checkACLs of pkg/bastion/acl.go. The clock is an argument, and so is the order in which Go
-- iterates over a map.
use sshportal.Base.{
  ℕ, ◌≤◌, String, Bool, true, ◌&&◌, Option, none, some, List, [], ◌∷◌, Perm, ltb, eqb,
  if◌then◌else◌, All,
}
use sshportal.Models.{Acl, UserGroup, HostGroup, User, Host, action_deny}

-- Inception == nil || currentTime.After(*Inception)
begun : ℕ → Option ℕ → Bool
begun now none = true
begun now (some t) = ltb t now

-- Expiration == nil || currentTime.Before(*Expiration)
unexpired : ℕ → Option ℕ → Bool
unexpired now none = true
unexpired now (some t) = ltb now t

unfoldable pub in_force : ℕ → Acl → Bool
unfolding begun unexpired
in_force now acl = begun now acl.inception && unexpired now acl.expiration

-- aclMap[acl.ID] = acl
unfoldable pub put : Acl → List Acl → List Acl
put a [] = a ∷ []
put a (b ∷ m) = if eqb b.id a.id then a ∷ m else b ∷ put a m

-- the four nested loops, the innermost first
unfoldable pub scan_host_acls : ℕ → Acl → List Acl → List Acl → List Acl
scan_host_acls now ua [] m = m
scan_host_acls now ua (ha ∷ has) m =
    scan_host_acls now ua has (if eqb ua.id ha.id && in_force now ua then put ua m else m)

unfoldable pub scan_host_groups : ℕ → Acl → List HostGroup → List Acl → List Acl
scan_host_groups now ua [] m = m
scan_host_groups now ua (hg ∷ hgs) m = scan_host_groups now ua hgs (scan_host_acls now ua hg.acls m)

unfoldable pub scan_user_acls : ℕ → List Acl → List HostGroup → List Acl → List Acl
scan_user_acls now [] hgs m = m
scan_user_acls now (ua ∷ uas) hgs m = scan_user_acls now uas hgs (scan_host_groups now ua hgs m)

unfoldable pub scan_user_groups : ℕ → List UserGroup → List HostGroup → List Acl → List Acl
scan_user_groups now [] hgs m = m
scan_user_groups now (ug ∷ ugs) hgs m =
    scan_user_groups now ugs hgs (scan_user_acls now ug.acls hgs m)

unfoldable pub acl_map : ℕ → User → Host → List Acl
acl_map now user host = scan_user_groups now user.groups host.groups []

-- What the program leaves open: the order of `range aclMap`, and how sort.Sort, which is not
-- stable, places entries of equal weight.
abbrev pub IsSorted : List Acl → Type 0
IsSorted [] = Unit
IsSorted (a ∷ l) = All (λ b. a.weight ≤ b.weight) l × IsSorted l

pub record Runtime : Type 0 where
  pub range : List Acl → List Acl
  pub range-perm : (l : List Acl) → Perm (range l) l
  pub sort : List Acl → List Acl
  pub sort-perm : (l : List Acl) → Perm (sort l) l
  pub sort-IsSorted : (l : List Acl) → IsSorted (sort l)

-- the action handed to the hook; `acls[0]` of no entries is not reached
unfoldable pub first_action : List Acl → String
first_action [] = action_deny
first_action (a ∷ _) = a.action

-- `if len(aclMap) == 0 { deny }`, else the action of the first entry after sorting
unfoldable pub select_action : Runtime → List Acl → String
unfolding first_action
select_action rt [] = action_deny
select_action rt (a ∷ m) = first_action (rt.sort (rt.range (a ∷ m)))
