-- ===== src/Shell/Acls.antt =====
-- The commands `acl`.
use sshportal.Base.{
  ℕ, String, not, ◌&&◌, ◌||◌, Option, none, some, List, [], ◌∷◌, join, map, filter, any, length,
  eqb, ◌==◌, Result, ok,
}
use sshportal.Models.{Acl, UserGroup, HostGroup, User, action_allow, action_deny}
use sshportal.Lookup.{acls_by_identifiers, user_groups_by_identifiers, host_groups_by_identifiers}
use sshportal.Shell.Fields.{parse_optional_time, new_acl}
use sshportal.Shell.Updates.{update_acl}
use sshportal.Shell.Store.{Table, Gorm, selected}
use sshportal.Shell.Listing.{list_rows}
use sshportal.Strconv.Printing.{decimal}
use sshportal.Shell.Actions.{
  Context, Env, message, bad_time, invalid, Reply, created, acls, Action, ◌>>=◌, ◌>>◌, pure, admin,
  try, query, insert, change, guard, require, some_args, transaction, for_each,
}

module _ {S : Type 0} (g : Gorm S) (env : Env) (myself : User) (c : Context) where
  unfoldable pub acl_create : Action S Reply
  unfolding require new_acl parse_optional_time
  acl_create = do
    require myself admin
    inception ← try bad_time (parse_optional_time env.parse_time (c.string "inception"))
    expiration ← try bad_time (parse_optional_time env.parse_time (c.string "expiration"))
    let acl = new_acl c inception expiration
    guard (acl.action == action_allow || acl.action == action_deny)
        (message "invalid action, allowed values: allow, deny")
    try invalid (env.valid_acl acl)
    user_groups ← query (
        g.user_groups.find
          (selected g g.user_groups (user_groups_by_identifiers (c.slice "usergroup"))))
    host_groups ← query (
        g.host_groups.find
          (selected g g.host_groups (host_groups_by_identifiers (c.slice "hostgroup"))))
    guard (not (eqb (length user_groups) 0)) (message "an ACL must have at least one user group")
    guard (not (eqb (length host_groups) 0 && acl.host_pattern == ""))
        (message "an ACL must have at least one host group or host pattern")
    row ← insert (
        g.acls.create (record acl {
          user_groups = map (λ (u : UserGroup). u.id) user_groups;
          host_groups = map (λ (h : HostGroup). h.id) host_groups;
        }))
    pure (created row.id)

  unfoldable pub acl_inspect : Action S Reply
  unfolding require some_args
  acl_inspect = some_args c (do
    require myself admin
    rows ← query (g.acls.find (selected g g.acls (acls_by_identifiers c.args)))
    pure (acls rows))

  unfoldable pub acl_rm : Action S Reply
  unfolding require some_args
  acl_rm = some_args c (do
    require myself admin
    change (g.acls.delete (selected g g.acls (acls_by_identifiers c.args))))

  unfoldable pub acl_update : Action S Reply
  unfolding require some_args transaction for_each
  acl_update = some_args c (do
    require myself admin
    rows ← query (g.acls.find (selected g g.acls (acls_by_identifiers c.args)))
    transaction g (λ s. for_each rows (update_acl g env c s)))

  abbrev date : Option ℕ → String
  date none = ""
  date (some t) = env.format_time t

  -- the names of the associated groups; those that are gone are not preloaded
  abbrev group_names : {R : Type 0} → Table S R → S → List ℕ → List String
  group_names t s is =
      map (λ r. (t.columns r).name) (filter (λ r. any (λ i. eqb i (t.columns r).id) is) (t.rows s))

  unfoldable pub acl_cells : S → Acl → Result String (List String)
  acl_cells s acl = ok (
      decimal acl.id
      ∷ decimal acl.weight
      ∷ join ", " (group_names g.user_groups s acl.user_groups)
      ∷ join ", " (group_names g.host_groups s acl.host_groups)
      ∷ acl.host_pattern
      ∷ acl.action
      ∷ date acl.inception
      ∷ date acl.expiration
      ∷ env.humanize (g.acls.updated_at acl s)
      ∷ env.humanize (g.acls.created_at acl s)
      ∷ acl.comment
      ∷ [])

  abbrev pub acl_header : List String
  acl_header =
      "ID" ∷ "Weight" ∷ "User groups" ∷ "Host groups" ∷ "Host pattern" ∷ "Action" ∷ "Inception"
      ∷ "Expiration" ∷ "Updated" ∷ "Created" ∷ "Comment" ∷ []

  unfoldable pub acl_ls : Action S Reply
  unfolding list_rows acl_cells
  acl_ls = list_rows g.acls myself c admin acl_header "ACLs" acl_cells
