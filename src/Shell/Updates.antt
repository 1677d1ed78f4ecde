-- ===== src/Shell/Updates.antt =====
-- The bodies of the update commands: what is done to one row inside a transaction. What a body looks
-- up goes by the state outside the transaction.
use sshportal.Base.{
  ℕ, String, Bool, true, false, not, none, some, List, [], ◌∷◌, map, length, ltb, ◌==◌,
  if◌then◌else◌, Result, ok, err, ◌>>=◌,
}
use sshportal.Models.{Acl, UserGroup, HostGroup, User, UserRole, Host}
use sshportal.Lookup.{
  Where, user_groups_by_identifiers, host_groups_by_identifiers, ssh_keys_by_identifiers,
  user_roles_by_identifiers,
}
use sshportal.Shell.Store.{Table, Gorm, selected, named_host}
use sshportal.Shell.Actions.{
  Context, Env, ShellError, message, bad_time, bad_url, as_error, Failure, rolled_back, abandoned,
  or_rollback, or_abandon,
}
use sshportal.Shell.Fields.{
  parse_optional_time, parse_input_url, is_valid_host_logging_mode, updated_acl, add_rows,
  drop_rows,
}

-- a change that is made under a flag
abbrev if_flag : {S : Type 0} → Bool → (S → Result Failure S) → S → Result Failure S
if_flag true f t = f t
if_flag false f t = ok t

abbrev if_text : {S : Type 0} → String → (S → Result Failure S) → S → Result Failure S
if_text v f t = if_flag (not (v == "")) f t

abbrev plain : ℕ → ℕ
plain i = i

module _ {S : Type 0} (g : Gorm S) (env : Env) (c : Context) (s : S) where
  -- a field of a row, written if the flag of that name is given
  abbrev set_text : {R : Type 0} → Table S R → R → (String → R → R) → String → S → Result Failure S
  set_text t r f v = if_text v (λ t₀. or_rollback (t.update r (f v) t₀))

  abbrev found : {R : Type 0} → Table S R → Where → Result Failure (List R)
  found t w = or_rollback (t.find (selected g t w) s)

  abbrev with_rows :
      {R Q : Type 0} → Table S R → R → (List Q → R → R) → List Q → S → Result Failure S
  with_rows t r f new t₀ = or_rollback (t.update r (f new) t₀)

  -- Append, and Delete if there is anything to delete
  abbrev associate :
      {R Q : Type 0}
      → Table S R
      → R
      → (List Q → R → R)
      → (List Q → R → R)
      → List Q
      → List Q
      → S
      → Result Failure S
  associate t r add drop appended deleted t₀ = do
    t₁ ← with_rows t r add appended t₀
    if_flag (ltb 0 (length deleted)) (with_rows t r drop deleted) t₁

  unfoldable pub update_acl : Acl → S → Result Failure S
  unfolding parse_optional_time updated_acl add_rows drop_rows
  update_acl acl t₀ = do
    inception ←
        or_abandon (as_error bad_time (parse_optional_time env.parse_time (c.string "inception")))
    expiration ←
        or_abandon (as_error bad_time (parse_optional_time env.parse_time (c.string "expiration")))
    t₁ ← or_rollback (g.acls.update acl (updated_acl c inception expiration) t₀)
    t₂ ←
        if_flag (c.bool "unset-inception")
          (λ t. or_rollback (g.acls.update acl (λ a. record a { inception = none }) t)) t₁
    t₃ ←
        if_flag (c.bool "unset-expiration")
          (λ t. or_rollback (g.acls.update acl (λ a. record a { expiration = none }) t)) t₂
    append_user_groups ←
        found g.user_groups (user_groups_by_identifiers (c.slice "assign-usergroup"))
    delete_user_groups ←
        found g.user_groups (user_groups_by_identifiers (c.slice "unassign-usergroup"))
    t₄ ←
        associate g.acls acl (λ l a. record a { user_groups = add_rows plain a.user_groups l })
          (λ l a. record a { user_groups = drop_rows plain a.user_groups l })
          (map (λ (u : UserGroup). u.id) append_user_groups)
          (map (λ (u : UserGroup). u.id) delete_user_groups) t₃
    append_host_groups ←
        found g.host_groups (host_groups_by_identifiers (c.slice "assign-hostgroup"))
    delete_host_groups ←
        found g.host_groups (host_groups_by_identifiers (c.slice "unassign-hostgroup"))
    associate g.acls acl (λ l a. record a { host_groups = add_rows plain a.host_groups l })
        (λ l a. record a { host_groups = drop_rows plain a.host_groups l })
        (map (λ (h : HostGroup). h.id) append_host_groups)
        (map (λ (h : HostGroup). h.id) delete_host_groups) t₄

  set_hop : Host → S → Result Failure S
  set_hop host t₀ = elim (named_host g (c.string "hop") s) [
    | none ↦ err (rolled_back (message "no such target"))
    | some hop ↦ or_rollback (g.hosts.update host (λ h. record h { hop_id = hop.id }) t₀)
  ]

  set_logging : Host → S → Result Failure S
  set_logging host t₀ =
      if is_valid_host_logging_mode (c.string "logging")
      then or_rollback (g.hosts.update host (λ h. record h { logging = c.string "logging" }) t₀)
      else err (abandoned (message "invalid host logging mode"))

  unset_hop : Host → S → Result Failure S
  unset_hop host t₀ = do
    hop ← or_abandon (as_error ShellError.database (g.association "HopID" host s))
    or_rollback (g.hosts.update host (λ h. record h { hop_id = 0 }) t₀)

  set_url : Host → S → Result Failure S
  set_url host t₀ = elim (parse_input_url env.parse_url (c.string "url")) [
    | err e ↦ err (rolled_back (bad_url e))
    | ok u ↦ or_rollback (g.hosts.update host (λ h. record h { url = u }) t₀)
  ]

  set_key : Host → S → Result Failure S
  set_key host t₀ = do
    key ←
        or_rollback (
          g.ssh_keys.first (selected g g.ssh_keys (ssh_keys_by_identifiers (c.string "key" ∷ [])))
            s)
    or_rollback (g.hosts.update host (λ h. record h { ssh_key = some key; ssh_key_id = key.id }) t₀)

  unfoldable pub update_host : Host → S → Result Failure S
  unfolding set_hop set_logging unset_hop set_url set_key is_valid_host_logging_mode parse_input_url
      add_rows drop_rows named_host
  update_host host t₀ = do
    t₁ ← set_text g.hosts host (λ v h. record h { name = v }) (c.string "name") t₀
    t₂ ← set_text g.hosts host (λ v h. record h { comment = v }) (c.string "comment") t₁
    t₃ ← if_text (c.string "url") (set_url host) t₂
    t₄ ← if_text (c.string "hop") (set_hop host) t₃
    t₅ ← if_text (c.string "logging") (set_logging host) t₄
    t₆ ← if_flag (c.bool "unset-hop") (unset_hop host) t₅
    t₇ ← if_text (c.string "key") (set_key host) t₆
    append_groups ← found g.host_groups (host_groups_by_identifiers (c.slice "assign-group"))
    delete_groups ← found g.host_groups (host_groups_by_identifiers (c.slice "unassign-group"))
    associate g.hosts host
        (λ l h. record h { groups = add_rows (λ (x : HostGroup). x.id) h.groups l })
        (λ l h. record h { groups = drop_rows (λ (x : HostGroup). x.id) h.groups l }) append_groups
        delete_groups t₇

  unfoldable pub update_host_group : HostGroup → S → Result Failure S
  update_host_group group t₀ = do
    t₁ ← set_text g.host_groups group (λ v h. record h { name = v }) (c.string "name") t₀
    set_text g.host_groups group (λ v h. record h { comment = v }) (c.string "comment") t₁

  unfoldable pub update_user_group : UserGroup → S → Result Failure S
  update_user_group group t₀ = do
    t₁ ← set_text g.user_groups group (λ v u. record u { name = v }) (c.string "name") t₀
    set_text g.user_groups group (λ v u. record u { comment = v }) (c.string "comment") t₁

  unfoldable pub update_user : User → S → Result Failure S
  unfolding add_rows drop_rows
  update_user user t₀ = do
    t₁ ← set_text g.users user (λ v u. record u { name = v }) (c.string "name") t₀
    t₂ ← set_text g.users user (λ v u. record u { email = v }) (c.string "email") t₁
    t₃ ← set_text g.users user (λ v u. record u { comment = v }) (c.string "comment") t₂
    t₄ ← set_text g.users user (λ v u. record u { invite_token = v }) (c.string "invite_token") t₃
    t₅ ←
        if_flag (c.bool "remove_invite")
          (λ t. or_rollback (g.users.update user (λ u. record u { invite_token = "" }) t)) t₄
    append_groups ← found g.user_groups (user_groups_by_identifiers (c.slice "assign-group"))
    delete_groups ← found g.user_groups (user_groups_by_identifiers (c.slice "unassign-group"))
    t₆ ←
        associate g.users user
          (λ l u. record u { groups = add_rows (λ (x : UserGroup). x.id) u.groups l })
          (λ l u. record u { groups = drop_rows (λ (x : UserGroup). x.id) u.groups l })
          append_groups delete_groups t₅
    append_roles ← found g.user_roles (user_roles_by_identifiers (c.slice "assign-role"))
    delete_roles ← found g.user_roles (user_roles_by_identifiers (c.slice "unassign-role"))
    associate g.users user (λ l u. record u { roles = add_rows (λ (x : UserRole). x.id) u.roles l })
        (λ l u. record u { roles = drop_rows (λ (x : UserRole). x.id) u.roles l }) append_roles
        delete_roles t₆
