-- ===== src/Migrations/Tests.antt =====
-- Examples of the theorems on the schema, over a database that is the list of its structs.
use sshportal.Base.{
  String, ◌≡◌, refl, ap, ◌∙◌, Bool, true, false, ◌&&◌, ◌||◌, List, [], ◌∷◌, take, drop, All, any,
  ◌==◌, eq_refl, Result, ok, err, arith,
}
use sshportal.Models.{UserRole}
use sshportal.Migrations.{Struct, Migrator, migrate, migrate_step, each}
use sshportal.Migrations.History.{
  migrations, tables_first, indexes, roles, sessions_and_keys, host_fields,
}
use sshportal.Migrations.Schema.{model_columns, migrate_gives, migrate_completes}

abbrev has : List Struct → String → String → Bool
has [] name column = false
has (t ∷ s) name column = t.name == name && any (λ c. c == column) t.columns || has s name column

moved : {s s' : List Struct} → ◌≡◌ {A = Result String (List Struct)} (ok s) (ok s') → s' ≡ s
moved h = cc

same_state :
    {s s' : List Struct} → ◌≡◌ {A = Result String (List Struct)} (ok s) (ok s') → has s' ≡ has s
same_state h = ap has (moved h)

adds :
    (t : Struct) (s : List Struct) (column : String)
    → any (λ c. c == column) t.columns ≡ true
    → has (t ∷ s) t.name column ≡ true
adds t s column h = ground (arith, eq_refl t.name)

keeps :
    (t : Struct) (s : List Struct) (name column : String)
    → has s name column ≡ true
    → has (t ∷ s) name column ≡ true
keeps t s name column h = ground arith

abbrev admin_role : UserRole
admin_role = record { id = 1; name = "admin" }

unfoldable structs : Migrator (List Struct)
structs = record {
  has_column = has;
  auto = λ t s. ok (t ∷ s);
  drop_table_of = λ _ s. ok s;
  drop_index_of = λ _ _ s. ok s;
  create_index_of = λ _ _ s. ok s;
  add_role = λ _ s. ok s;
  delete_role_of = λ _ s. ok s;
  role_named = λ _ _. ok admin_role;
  admins = λ _. ok [];
  save_user = λ _ s. ok s;
  user_keys = λ _. ok [];
  update_user_key = λ _ s. ok s;
  sessions = λ _. ok [];
  clear_stop = λ _ s. ok s;
  update_logging = λ _ s. ok s;
  authorized_key = λ _. ok "ssh-rsa";
  auto_adds = λ t s column {s'} e h. ap (λ x. has x t.name column) (moved e) ∙ adds t s column h;
  auto_keeps =
      λ t s name column {s'} e h. ap (λ x. has x name column) (moved e) ∙ keeps t s name column h;
  drop_index_keeps = λ _ _ s {s'} e. same_state e;
  create_index_keeps = λ _ _ s {s'} e. same_state e;
  add_role_keeps = λ _ s {s'} e. same_state e;
  save_user_keeps = λ _ s {s'} e. same_state e;
  update_user_key_keeps = λ _ s {s'} e. same_state e;
  clear_stop_keeps = λ _ s {s'} e. same_state e;
  update_logging_keeps = λ _ s {s'} e. same_state e;
}

abbrev reached : Result String (List Struct) → List Struct
reached (ok s) = s
reached (err _) = []

stepped : Unit {0}
unfolding structs migrate migrate_step each migrations tables_first indexes roles sessions_and_keys
    host_fields
stepped = tt

-- the database as the first eight migrations leave it, and after the rest
unfoldable eighth : List Struct
eighth = reached (migrate structs (take 8 migrations) [])

unfoldable last : List Struct
unfolding eighth
last = reached (migrate structs (drop 8 migrations) eighth)

eighth_reached : migrate structs (take 8 migrations) [] ≡ ok eighth
unfolding stepped eighth
eighth_reached = refl

last_reached : migrate structs (drop 8 migrations) eighth ≡ ok last
unfolding stepped eighth last
last_reached = refl

migrate_completes_example : All (λ p. has last p.0 p.1 ≡ true) model_columns
unfolding structs
migrate_completes_example =
    migrate_completes structs 8 eighth last
      (λ t c h. migrate_gives structs t c (take 8 migrations) [] eighth eighth_reached h)
      last_reached
