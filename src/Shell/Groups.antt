-- ===== src/Shell/Groups.antt =====
-- The commands `hostgroup` and `usergroup`.
use sshportal.Base.{String, not, ◌&&◌, List, [], ◌∷◌, length, ltb, ◌==◌, Result, ok}
use sshportal.Strconv.Printing.{decimal}
use sshportal.Models.{HostGroup, UserGroup, User}
use sshportal.Lookup.{host_groups_by_identifiers, user_groups_by_identifiers}
use sshportal.Shell.Store.{Gorm, selected}
use sshportal.Shell.Actions.{
  Context, Env, message, invalid, Reply, created, host_groups, user_groups, Action, ◌>>=◌, ◌>>◌,
  pure, try, query, insert, change, guard, require, some_args, admin, transaction, for_each,
}
use sshportal.Shell.Updates.{update_host_group, update_user_group}
use sshportal.Shell.Listing.{list_rows}
use sshportal.Shell.Hosts.{unless_empty}

module _ {S : Type 0} (g : Gorm S) (env : Env) (myself : User) (c : Context) where
  unfoldable pub new_host_group : HostGroup
  new_host_group = record {
    id = 0;
    name = unless_empty (c.string "name") env.random_name;
    hosts = [];
    acls = [];
    comment = c.string "comment";
  }

  unfoldable pub host_group_create : Action S Reply
  unfolding require new_host_group
  host_group_create = do
    require myself admin
    try invalid (env.valid_host_group new_host_group)
    row ← insert (g.host_groups.create new_host_group)
    pure (created row.id)

  unfoldable pub host_group_inspect : Action S Reply
  unfolding some_args require
  host_group_inspect = some_args c (do
    require myself admin
    rows ← query (g.host_groups.find (selected g g.host_groups (host_groups_by_identifiers c.args)))
    pure (host_groups rows))

  unfoldable pub host_group_rm : Action S Reply
  unfolding some_args require
  host_group_rm = some_args c (do
    require myself admin
    change (g.host_groups.delete (selected g g.host_groups (host_groups_by_identifiers c.args))))

  unfoldable pub host_group_update : Action S Reply
  unfolding some_args require transaction for_each
  host_group_update = some_args c (do
    require myself admin
    rows ← query (g.host_groups.find (selected g g.host_groups (host_groups_by_identifiers c.args)))
    guard (not (ltb 1 (length rows) && not (c.string "name" == "")))
        (message "cannot set --name when editing multiple hostgroups at once")
    transaction g (λ s. for_each rows (update_host_group g env c s)))

  unfoldable pub host_group_cells : S → HostGroup → Result String (List String)
  host_group_cells s group = ok (
      decimal group.id
      ∷ group.name
      ∷ decimal (length group.hosts)
      ∷ decimal (length group.acls)
      ∷ env.humanize (g.host_groups.updated_at group s)
      ∷ env.humanize (g.host_groups.created_at group s)
      ∷ group.comment
      ∷ [])

  abbrev pub host_group_header : List String
  host_group_header = "ID" ∷ "Name" ∷ "Hosts" ∷ "ACLs" ∷ "Updated" ∷ "Created" ∷ "Comment" ∷ []

  unfoldable pub host_group_ls : Action S Reply
  unfolding list_rows host_group_cells
  host_group_ls =
      list_rows g.host_groups myself c admin host_group_header "host groups" host_group_cells

  unfoldable pub new_user_group : UserGroup
  new_user_group = record {
    id = 0;
    name = unless_empty (c.string "name") env.random_name;
    users = [];
    acls = [];
    comment = c.string "comment";
  }

  unfoldable pub user_group_create : Action S Reply
  unfolding require new_user_group
  user_group_create = do
    require myself admin
    try invalid (env.valid_user_group new_user_group)
    row ← insert (g.user_groups.create (record new_user_group { users = myself.id ∷ [] }))
    pure (created row.id)

  unfoldable pub user_group_inspect : Action S Reply
  unfolding some_args require
  user_group_inspect = some_args c (do
    require myself admin
    rows ← query (g.user_groups.find (selected g g.user_groups (user_groups_by_identifiers c.args)))
    pure (user_groups rows))

  unfoldable pub user_group_rm : Action S Reply
  unfolding some_args require
  user_group_rm = some_args c (do
    require myself admin
    change (g.user_groups.delete (selected g g.user_groups (user_groups_by_identifiers c.args))))

  unfoldable pub user_group_update : Action S Reply
  unfolding some_args require transaction for_each
  user_group_update = some_args c (do
    require myself admin
    rows ← query (g.user_groups.find (selected g g.user_groups (user_groups_by_identifiers c.args)))
    guard (not (ltb 1 (length rows) && not (c.string "name" == "")))
        (message "cannot set --name when editing multiple usergroups at once")
    transaction g (λ s. for_each rows (update_user_group g env c s)))

  unfoldable pub user_group_cells : S → UserGroup → Result String (List String)
  user_group_cells s group = ok (
      decimal group.id
      ∷ group.name
      ∷ decimal (length group.users)
      ∷ decimal (length group.acls)
      ∷ env.humanize (g.user_groups.updated_at group s)
      ∷ env.humanize (g.user_groups.created_at group s)
      ∷ group.comment
      ∷ [])

  abbrev pub user_group_header : List String
  user_group_header = "ID" ∷ "Name" ∷ "Users" ∷ "ACLs" ∷ "Update" ∷ "Create" ∷ "Comment" ∷ []

  unfoldable pub user_group_ls : Action S Reply
  unfolding list_rows user_group_cells
  user_group_ls =
      list_rows g.user_groups myself c admin user_group_header "user groups" user_group_cells
