-- ===== src/Shell/Users.antt =====
-- The commands `user` and `userkey`.
use sshportal.Base.{
  ℕ, String, not, ◌&&◌, ◌||◌, List, [], ◌∷◌, ◌++◌, map, filter, join, length, eqb, ltb, ◌==◌, split,
  if◌then◌else◌, Result, ok, err,
}
use sshportal.Strconv.Printing.{decimal}
use sshportal.Models.{Bytes, User, UserGroup, UserKey, UserRole, no_user}
use sshportal.Lookup.{
  users_by_identifiers, user_groups_by_identifiers, user_keys_by_identifiers, user_keys_by_user_id,
}
use sshportal.Shell.Store.{Gorm, selected}
use sshportal.Shell.Actions.{
  Context, Env, message, invalid, not_read, not_generated, Reply, all_created, invited, users,
  user_keys, Action, ◌>>=◌, ◌>>◌, pure, fail, try, query, insert, change, guard, require, some_args,
  one_arg, admin, transaction, for_each,
}
use sshportal.Shell.Updates.{update_user}
use sshportal.Shell.Listing.{list_rows}
use sshportal.Shell.Hosts.{unless_empty, first_arg}

-- a line that is read, with what ended it
pub data ReadEnd : Type 0 where
  newline eof : ReadEnd
  broken : String → ReadEnd

module _ {S : Type 0} (g : Gorm S) (env : Env) (myself : User) (c : Context) where
  unfoldable pub user_inspect : Action S Reply
  unfolding some_args require
  user_inspect = some_args c (do
    require myself admin
    rows ← query (g.users.find (selected g g.users (users_by_identifiers c.args)))
    pure (users rows))

  unfoldable pub invited_user : String → String → User
  invited_user email token = record no_user {
    name = unless_empty (c.string "name") (first_arg (split b'@' email));
    email = email;
    comment = c.string "comment";
    invite_token = token;
  }

  abbrev input_groups : List String
  input_groups = elim (c.slice "group") [ [] ↦ "default" ∷ [] | x ∷ xs ↦ x ∷ xs ]

  unfoldable pub user_invite : Action S Reply
  unfolding one_arg require invited_user
  user_invite = one_arg c (do
    require myself admin
    let email = first_arg c.args
    guard (env.valid_email email) (message "invalid email")
    token ← try not_generated env.token
    let user = invited_user email token
    try invalid (env.valid_user user)
    groups ←
        query
          (g.user_groups.find (selected g g.user_groups (user_groups_by_identifiers input_groups)))
    row ← insert (g.users.create (record user { groups = groups }))
    pure (invited row.id row.invite_token))

  unfoldable pub user_rm : Action S Reply
  unfolding some_args require
  user_rm = some_args c (do
    require myself admin
    change (g.users.delete (selected g g.users (users_by_identifiers c.args))))

  unfoldable pub user_update : Action S Reply
  unfolding some_args require transaction for_each
  user_update = some_args c (do
    require myself admin
    rows ← query (g.users.find (selected g g.users (users_by_identifiers c.args)))
    guard (not (c.bool "set-admin" && c.bool "unset-admin"))
        (message "cannot use --set-admin and --unset-admin altogether")
    guard (not (ltb 1 (length rows) && not (c.string "email" == "")))
        (message "cannot set --email when editing multiple users at once")
    transaction g (λ s. for_each rows (update_user g env c s)))

  unfoldable pub user_cells : S → User → Result String (List String)
  user_cells s user = ok (
      decimal user.id
      ∷ user.name
      ∷ user.email
      ∷ join ", " (map (λ (r : UserRole). r.name) user.roles)
      ∷ decimal (length user.keys)
      ∷ join ", " (map (λ (x : UserGroup). x.name) user.groups)
      ∷ env.humanize (g.users.updated_at user s)
      ∷ env.humanize (g.users.created_at user s)
      ∷ user.comment
      ∷ [])

  abbrev pub user_header : List String
  user_header =
      "ID" ∷ "Name" ∷ "Email" ∷ "Roles" ∷ "Keys" ∷ "Groups" ∷ "Updated" ∷ "Created" ∷ "Comment" ∷ []

  unfoldable pub user_ls : Action S Reply
  unfolding list_rows user_cells
  user_ls = list_rows g.users myself c admin user_header "users" user_cells

  -- the key of a line, for a user
  unfoldable pub new_user_key : User → Bytes × String × String → UserKey
  new_user_key user (bytes, comment, authorized) = record {
    id = 0;
    key = bytes;
    authorized_key = authorized;
    user_id = user.id;
    comment = unless_empty (c.string "comment") comment;
  }

  unfoldable pub save_line : User → String → Action S UserKey
  unfolding new_user_key
  save_line user text = do
    parsed ← try not_read (env.parse_authorized_key text)
    let row = new_user_key user parsed
    try invalid (env.valid_user_key row)
    insert (g.user_keys.create row)

  -- the loop over the lines; it ends at a blank one, or behind one that the end of input ended
  unfoldable pub save_lines : User → List (String × ReadEnd) → List ℕ → Action S Reply
  unfolding save_line
  save_lines user [] done = pure (all_created done)
  save_lines user ((text, broken e) ∷ ls) done = fail (not_read e)
  save_lines user ((text, newline) ∷ ls) done =
      let rest = λ (row : UserKey). save_lines user ls (done ++ row.id ∷ []) in
      if text == "" || text == "\n" then pure (all_created done) else (save_line user text >>= rest)
  save_lines user ((text, eof) ∷ ls) done =
      if text == "" || text == "\n"
      then pure (all_created done)
      else do row ← save_line user text; pure (all_created (done ++ row.id ∷ []))

  unfoldable pub user_key_create : List (String × ReadEnd) → Action S Reply
  unfolding one_arg require save_lines
  user_key_create lines = one_arg c (do
    require myself admin
    user ← query (g.users.first (selected g g.users (users_by_identifiers c.args)))
    save_lines user lines [])

  unfoldable pub user_key_inspect : Action S Reply
  unfolding some_args require
  user_key_inspect = some_args c (do
    require myself admin
    rows ← query (g.user_keys.find (selected g g.user_keys (user_keys_by_identifiers c.args)))
    pure (user_keys rows))

  -- the keys of a user, where the query for keys by their ids is refused
  unfoldable pub rm_keys_of_user : Action S Reply
  rm_keys_of_user = do
    user ← query (g.users.first (selected g g.users (users_by_identifiers c.args)))
    keys ←
        query
          (g.user_keys.find (selected g g.user_keys (user_keys_by_user_id (decimal user.id ∷ []))))
    change
        (g.user_keys.delete (selected g g.user_keys (user_keys_by_user_id (decimal user.id ∷ []))))

  unfoldable pub user_key_rm : Action S Reply
  unfolding some_args require rm_keys_of_user
  user_key_rm = some_args c (do
    require myself admin
    λ s. elim (g.user_keys.find (selected g g.user_keys (user_keys_by_identifiers c.args)) s) [
      | err _ ↦ rm_keys_of_user s
      | ok _ ↦
          change (g.user_keys.delete (selected g g.user_keys (user_keys_by_identifiers c.args))) s
    ])

  -- the e-mail of the owner, where Preload finds one
  abbrev email_of : List User → String
  email_of [] = "n/a"
  email_of (u ∷ _) = u.email

  unfoldable pub user_key_cells : S → UserKey → Result String (List String)
  user_key_cells s key = ok (
      decimal key.id
      ∷ email_of (filter (λ (u : User). eqb u.id key.user_id) (g.users.rows s))
      ∷ env.humanize (g.user_keys.updated_at key s)
      ∷ env.humanize (g.user_keys.created_at key s)
      ∷ key.comment
      ∷ [])

  abbrev pub user_key_header : List String
  user_key_header = "ID" ∷ "User" ∷ "Updated" ∷ "Created" ∷ "Comment" ∷ []

  unfoldable pub user_key_ls : Action S Reply
  unfolding list_rows user_key_cells
  user_key_ls = list_rows g.user_keys myself c admin user_key_header "userkeys" user_key_cells
