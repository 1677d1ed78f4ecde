-- ===== src/Startup/Toy.antt =====
-- The database of Shell.Toy, opened by DBInit, for the examples.
use mathlib.Core.Path.{subst}
use sshportal.Base.{
  ◌≡◌, refl, sym, ap, Bool, true, List, [], ◌∷◌, ◌++◌, map, any, length, ◌+◌, if◌then◌else◌, ok,
  err, arith,
}
use sshportal.Models.{Session}
use sshportal.Migrations.{Migrator}
use sshportal.Startup.{Opened}
use sshportal.Startup.Ensure.{
  Kind, keys, host_groups, user_groups, acls, users, Row, table_of, Apart,
}
use sshportal.Shell.Toy.{Db, db, ok-injective}

unfoldable pub opened : Opened Db
unfolding db
opened = record {
  gorm = db;
  update_sessions =
      λ p f s. ok (record s { session_rows = map (λ x. if p x then f x else x) s.session_rows });
  update_sessions_lem = λ p f s {s'} h. ap (λ (x : Db). x.session_rows) (sym (ok-injective h));
}

any-append : {A : Type 0} (p : A → Bool) (l m : List A) → any p l ≡ true → any p (l ++ m) ≡ true
unfolding any
any-append p [] m h = absurd cc
any-append p (x ∷ l) m h = ground (arith, any-append p l m)

-- the state after Create
abbrev after : (j : Kind) → Row j → Db → Db
after keys r s = record s {
  ssh_key_rows = s.ssh_key_rows ++ record r { id = length s.ssh_key_rows + 1 } ∷ [];
}
after host_groups r s = record s {
  host_group_rows = s.host_group_rows ++ record r { id = length s.host_group_rows + 1 } ∷ [];
}
after user_groups r s = record s {
  user_group_rows = s.user_group_rows ++ record r { id = length s.user_group_rows + 1 } ∷ [];
}
after acls r s = record s { acl_rows = s.acl_rows ++ record r { id = length s.acl_rows + 1 } ∷ [] }
after users r s = record s {
  user_rows = s.user_rows ++ record r { id = length s.user_rows + 1 } ∷ [];
}

stays :
    (j k : Kind) (p : Row k → Bool) (r : Row j) (s : Db)
    → any p ((table_of db k).rows s) ≡ true
    → any p ((table_of db k).rows (after j r s)) ≡ true
unfolding db
stays keys keys p r s h =
    any-append p s.ssh_key_rows (record r { id = length s.ssh_key_rows + 1 } ∷ []) h
stays keys host_groups p r s h = h
stays keys user_groups p r s h = h
stays keys acls p r s h = h
stays keys users p r s h = h
stays host_groups keys p r s h = h
stays host_groups host_groups p r s h =
    any-append p s.host_group_rows (record r { id = length s.host_group_rows + 1 } ∷ []) h
stays host_groups user_groups p r s h = h
stays host_groups acls p r s h = h
stays host_groups users p r s h = h
stays user_groups keys p r s h = h
stays user_groups host_groups p r s h = h
stays user_groups user_groups p r s h =
    any-append p s.user_group_rows (record r { id = length s.user_group_rows + 1 } ∷ []) h
stays user_groups acls p r s h = h
stays user_groups users p r s h = h
stays acls keys p r s h = h
stays acls host_groups p r s h = h
stays acls user_groups p r s h = h
stays acls acls p r s h = any-append p s.acl_rows (record r { id = length s.acl_rows + 1 } ∷ []) h
stays acls users p r s h = h
stays users keys p r s h = h
stays users host_groups p r s h = h
stays users user_groups p r s h = h
stays users acls p r s h = h
stays users users p r s h =
    any-append p s.user_rows (record r { id = length s.user_rows + 1 } ∷ []) h

created_state :
    (j : Kind) (r r' : Row j) (s s' : Db)
    → (table_of db j).create r s ≡ ok (r', s')
    → after j r s ≡ s'
unfolding db
created_state keys r r' s s' e = ap (λ x. x.1) (ok-injective e)
created_state host_groups r r' s s' e = ap (λ x. x.1) (ok-injective e)
created_state user_groups r r' s s' e = ap (λ x. x.1) (ok-injective e)
created_state acls r r' s s' e = ap (λ x. x.1) (ok-injective e)
created_state users r r' s s' e = ap (λ x. x.1) (ok-injective e)

sessions_apart :
    (k : Kind) (p : Session → Bool) (f : Session → Session) (s s' : Db)
    → opened.update_sessions p f s ≡ ok s'
    → (table_of opened.gorm k).rows s' ≡ (table_of opened.gorm k).rows s
unfolding opened db
sessions_apart keys p f s s' e = ap (λ (x : Db). x.ssh_key_rows) (sym (ok-injective e))
sessions_apart host_groups p f s s' e = ap (λ (x : Db). x.host_group_rows) (sym (ok-injective e))
sessions_apart user_groups p f s s' e = ap (λ (x : Db). x.user_group_rows) (sym (ok-injective e))
sessions_apart acls p f s s' e = ap (λ (x : Db). x.acl_rows) (sym (ok-injective e))
sessions_apart users p f s s' e = ap (λ (x : Db). x.user_rows) (sym (ok-injective e))

pub apart : Apart opened
unfolding opened db
apart = record {
  create_keeps = λ j k p r r' s s' t e h.
      subst (λ x. any p ((table_of db k).rows x) ≡ true) (created_state j r r' s s' e)
        (stays j k p r s h);
  sessions_keep = sessions_apart;
  key_name = λ n r. refl;
  host_group_name = λ n r. refl;
  user_group_name = λ n r. refl;
}

-- a migrator that has every column, and changes nothing
unfoldable pub idle : Migrator Db
idle = record {
  has_column = λ _ _ _. true;
  auto = λ _ s. ok s;
  drop_table_of = λ _ s. ok s;
  drop_index_of = λ _ _ s. ok s;
  create_index_of = λ _ _ s. ok s;
  add_role = λ _ s. ok s;
  delete_role_of = λ _ s. ok s;
  role_named = λ _ _. err "record not found";
  admins = λ _. ok [];
  save_user = λ _ s. ok s;
  user_keys = λ _. ok [];
  update_user_key = λ _ s. ok s;
  sessions = λ _. ok [];
  clear_stop = λ _ s. ok s;
  update_logging = λ _ s. ok s;
  authorized_key = λ _. ok "";
  auto_adds = λ t s column {s'} e h. refl;
  auto_keeps = λ t s name column {s'} e h. refl;
  drop_index_keeps = λ _ _ s {s'} e. refl;
  create_index_keeps = λ _ _ s {s'} e. refl;
  add_role_keeps = λ _ s {s'} e. refl;
  save_user_keeps = λ _ s {s'} e. refl;
  update_user_key_keeps = λ _ s {s'} e. refl;
  clear_stop_keeps = λ _ s {s'} e. refl;
  update_logging_keeps = λ _ s {s'} e. refl;
}
