-- ===== src/Migrations.antt =====
-- The migrations of DBInit, pkg/bastion/dbinit.go, as data, and what the steps do. gorm's migrator is
-- an interface, and gormigrate runs the migrations that have not run in their order.
pub mod History
pub mod Schema
mod Tests
use sshportal.Base.{
  ℕ, String, ◌≡◌, Bool, true, false, ◌&&◌, ◌||◌, Option, none, some, List, [], ◌∷◌, ◌++◌, any, eqb,
  ◌==◌, if◌then◌else◌, Result, ok, err, ◌>>=◌,
}
use sshportal.Models.{Bytes, User, UserRole, UserKey, Session}

-- a struct of a migration: the table, its columns beside those of gorm.Model, and the join tables
pub record Struct : Type 0 where
  pub name : String
  pub columns : List String
  pub joins : List String

abbrev pub table : String → List String → List String → Struct
table name columns joins = record { name = name; columns = columns; joins = joins }

pub data Step : Type 0 where
  auto_migrate : Struct → Step
  -- DropIndex, then CreateIndex
  recreate_index : String → String → Step
  create_role : String → Step
  promote_admins fill_authorized_keys clear_zero_stops log_everything : Step

pub data Rollback : Type 0 where
  drop_table : String → Rollback
  drop_index : String → String → Rollback
  delete_role : String → Rollback
  not_implemented : Rollback

pub data Migration : Type 0 where
  migration : String → Step → Rollback → Migration

-- gorm's migrator and the queries of the migrations, with what is documented of AutoMigrate: it adds
-- the columns that are missing, and removes none
pub record Migrator (S : Type 0) : Type 0 where
  pub has_column : S → String → String → Bool
  pub auto : Struct → S → Result String S
  pub drop_table_of : String → S → Result String S
  pub drop_index_of : String → String → S → Result String S
  pub create_index_of : String → String → S → Result String S
  pub add_role : String → S → Result String S
  pub delete_role_of : String → S → Result String S
  pub role_named : String → S → Result String UserRole
  pub admins : S → Result String (List User)
  pub save_user : User → S → Result String S
  pub user_keys : S → Result String (List UserKey)
  pub update_user_key : UserKey → S → Result String S
  pub sessions : S → Result String (List Session)
  pub clear_stop : Session → S → Result String S
  -- Updates of every host
  pub update_logging : String → S → Result String S
  -- ParsePublicKey and MarshalAuthorizedKey
  pub authorized_key : Bytes → Result String String
  pub auto_adds :
      (t : Struct) (s : S) (column : String) {s' : S}
      → auto t s ≡ ok s'
      → any (λ c. c == column) t.columns ≡ true
      → has_column s' t.name column ≡ true
  -- what keeps the columns: AutoMigrate, indexes, and changes of rows
  pub auto_keeps :
      (t : Struct) (s : S) (name column : String) {s' : S}
      → auto t s ≡ ok s'
      → has_column s name column ≡ true
      → has_column s' name column ≡ true
  pub drop_index_keeps :
      (t i : String) (s : S) {s' : S} → drop_index_of t i s ≡ ok s' → has_column s' ≡ has_column s
  pub create_index_keeps :
      (t i : String) (s : S) {s' : S} → create_index_of t i s ≡ ok s' → has_column s' ≡ has_column s
  pub add_role_keeps :
      (n : String) (s : S) {s' : S} → add_role n s ≡ ok s' → has_column s' ≡ has_column s
  pub save_user_keeps :
      (u : User) (s : S) {s' : S} → save_user u s ≡ ok s' → has_column s' ≡ has_column s
  pub update_user_key_keeps :
      (k : UserKey) (s : S) {s' : S} → update_user_key k s ≡ ok s' → has_column s' ≡ has_column s
  pub clear_stop_keeps :
      (x : Session) (s : S) {s' : S} → clear_stop x s ≡ ok s' → has_column s' ≡ has_column s
  pub update_logging_keeps :
      (l : String) (s : S) {s' : S} → update_logging l s ≡ ok s' → has_column s' ≡ has_column s

-- a loop over rows that stops at the first error
unfoldable pub each : {S R : Type 0} → (R → S → Result String S) → List R → S → Result String S
each f [] s = ok s
each f (r ∷ rs) s = f r s >>= each f rs

-- StoppedAt is set, and is the zero time
abbrev is_zero_stop : Option ℕ → Bool
is_zero_stop none = false
is_zero_stop (some t) = eqb t 0

module _ {S : Type 0} (m : Migrator S) where
  unfoldable pub promote : UserRole → User → S → Result String S
  promote role user = m.save_user (record user { roles = user.roles ++ role ∷ [] })

  unfoldable pub fill_authorized_key : UserKey → S → Result String S
  fill_authorized_key key s = do
    text ← m.authorized_key key.key
    m.update_user_key (record key { authorized_key = text }) s

  unfoldable pub clear_zero_stop : Session → S → Result String S
  clear_zero_stop session s =
      if is_zero_stop session.stopped_at then m.clear_stop session s else ok s

  unfoldable pub migrate_step : Step → S → Result String S
  unfolding promote fill_authorized_key clear_zero_stop each
  migrate_step (auto_migrate t) s = m.auto t s
  migrate_step (recreate_index t i) s = m.drop_index_of t i s >>= m.create_index_of t i
  migrate_step (create_role name) s = m.add_role name s
  migrate_step promote_admins s = do
    role ← m.role_named "admin" s
    users ← m.admins s
    each (promote role) users s
  migrate_step fill_authorized_keys s = do keys ← m.user_keys s; each fill_authorized_key keys s
  migrate_step clear_zero_stops s = do sessions ← m.sessions s; each clear_zero_stop sessions s
  migrate_step log_everything s = m.update_logging "everything" s

  unfoldable pub roll_back : Rollback → S → Result String S
  roll_back (drop_table t) s = m.drop_table_of t s
  roll_back (drop_index t i) s = m.drop_index_of t i s
  roll_back (delete_role name) s = m.delete_role_of name s
  roll_back not_implemented s = err "not implemented"

  -- the migrations of a list, in its order, up to the first error
  unfoldable pub migrate : List Migration → S → Result String S
  unfolding migrate_step
  migrate [] s = ok s
  migrate (migration _ step _ ∷ l) s = migrate_step step s >>= migrate l
