-- ===== src/Lookup.antt =====
-- The helpers of pkg/dbmodels/dbmodels.go that look rows up by what a command line names, the roles of
-- a user, and events. A condition of gorm's Where and Or is a `Where`; how a database compares a text
-- with a column of numbers is a parameter of its meaning.
pub mod Selection
mod Tests
use sshportal.Base.{
  ℕ, zero, suc, String, ◌<>◌, Bool, true, false, ◌||◌, ◌&&◌, Option, none, some, List, [], ◌∷◌,
  ◌++◌, any, length, ltb, ◌==◌, if◌then◌else◌, Result, ok, err, join,
}
use sshportal.Models.{User, UserRole}
use sshportal.Strconv.{is_int}

-- the columns that a condition names; a table has the first two or more
pub record Columns : Type 0 where
  pub id : ℕ
  pub name : String
  pub email : String
  pub user_id : ℕ

pub data Where : Type 0 where
  everything : Where
  id_in name_in email_in user_id_in : List String → Where
  either : Where → Where → Where

-- `IN` over no values is `IN (NULL)`, which nothing satisfies
unfoldable pub holds : (String → ℕ → Bool) → Where → Columns → Bool
holds same everything c = true
holds same (id_in l) c = any (λ s. same s c.id) l
holds same (name_in l) c = any (λ s. c.name == s) l
holds same (email_in l) c = any (λ s. c.email == s) l
holds same (user_id_in l) c = any (λ s. same s c.user_id) l
holds same (either w v) c = holds same w c || holds same v c

-- the loop over the identifiers: ids and names, in order
unfoldable pub sort_out : List String → List String × List String
sort_out [] = ([], [])
sort_out (s ∷ l) =
    let rest = sort_out l in if is_int s then (s ∷ rest.0, rest.1) else (rest.0, s ∷ rest.1)

abbrev both_kinds : List String × List String → Bool
both_kinds p = ltb 0 (length p.0) && ltb 0 (length p.1)

-- GenericNameOrID
unfoldable pub generic_name_or_id : List String → Where
unfolding sort_out
generic_name_or_id identifiers =
    let p = sort_out identifiers in
    if both_kinds p
    then either (id_in p.0) (name_in p.1)
    else if ltb 0 (length p.0)
    then id_in p.0
    else name_in p.1

unfoldable pub hosts_by_identifiers : List String → Where
unfolding generic_name_or_id
hosts_by_identifiers = generic_name_or_id

unfoldable pub ssh_keys_by_identifiers : List String → Where
unfolding generic_name_or_id
ssh_keys_by_identifiers = generic_name_or_id

unfoldable pub host_groups_by_identifiers : List String → Where
unfolding generic_name_or_id
host_groups_by_identifiers = generic_name_or_id

unfoldable pub user_groups_by_identifiers : List String → Where
unfolding generic_name_or_id
user_groups_by_identifiers = generic_name_or_id

unfoldable pub user_roles_by_identifiers : List String → Where
unfolding generic_name_or_id
user_roles_by_identifiers = generic_name_or_id

-- The condition that the first branch builds is not returned, and `Where` on the handle that the
-- callers pass changes nothing.
unfoldable pub users_by_identifiers : List String → Where
unfolding sort_out
users_by_identifiers identifiers =
    let p = sort_out identifiers in
    if both_kinds p
    then either (email_in identifiers) (name_in identifiers)
    else if ltb 0 (length p.0)
    then id_in p.0
    else either (email_in identifiers) (name_in identifiers)

unfoldable pub acls_by_identifiers : List String → Where
acls_by_identifiers = id_in

unfoldable pub user_keys_by_identifiers : List String → Where
user_keys_by_identifiers = id_in

unfoldable pub user_keys_by_user_id : List String → Where
user_keys_by_user_id = user_id_in

unfoldable pub sessions_by_identifiers : List String → Where
sessions_by_identifiers = id_in

unfoldable pub events_by_identifiers : List String → Where
events_by_identifiers = id_in

has_role_in : List UserRole → String → Bool
has_role_in [] name = false
has_role_in (role ∷ roles) name = role.name == name || has_role_in roles name

unfoldable pub has_role : User → String → Bool
unfolding has_role_in
has_role user name = has_role_in user.roles name

-- CheckRoles; the error lists the roles that would do
unfoldable pub check_roles : User → List String → Result (List String) (Unit {0})
unfolding has_role
check_roles user names = if any (has_role user) names then ok tt else err names

-- the values that the program puts under `Args`
pub data Value : Type 0 where
  flag : Bool → Value
  texts : List String → Value

pub record Event : Type 0 where
  pub id : ℕ
  pub author_id : ℕ
  pub domain : String
  pub action : String
  pub entity : String
  pub args : String
  pub args_map : List (String × Value)

unfoldable pub new_event : String → String → Event
new_event domain action = record {
  id = 0;
  author_id = 0;
  domain = domain;
  action = action;
  entity = "";
  args = "";
  args_map = [];
}

unfoldable pub set_author : User → Event → Event
set_author user e = record e { author_id = user.id }

-- a write to a map
unfoldable pub put_arg : String → Value → List (String × Value) → List (String × Value)
put_arg name v [] = (name, v) ∷ []
put_arg name v ((n, w) ∷ m) = if n == name then (name, v) ∷ m else (n, w) ∷ put_arg name v m

unfoldable pub set_arg : String → Value → Event → Event
unfolding put_arg
set_arg name v e = record e { args_map = put_arg name v e.args_map }

unfoldable pub show_event : Event → String
show_event e = e.domain <> " " <> e.action <> " " <> e.entity <> " " <> e.args

-- the event that Log creates, given the JSON encoder; where that fails, the arguments stay as they are
unfoldable pub encoded : (List (String × Value) → Result String String) → Event → Event
encoded marshal e =
    if ltb 0 (length e.args_map)
    then (elim (marshal e.args_map) [ ok json ↦ record e { args = json } | err _ ↦ e ])
    else e
