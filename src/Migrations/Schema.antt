-- ===== src/Migrations/Schema.antt =====
-- The schema that the migrations leave is the one that the models of pkg/dbmodels/dbmodels.go need.
use mathlib.Core.Path.{subst}
use sshportal.Base.{
  ℕ, zero, suc, inl, inr, eq_iff, String, ◌≡◌, refl, sym, ap, ◌∙◌, Bool, true, false, ◌&&◌, ◌||◌,
  List, [], ◌∷◌, ◌++◌, take, drop, All, any, ◌==◌, Result, ok, ◌>>=◌, both_succeed, Bool-cases,
  arith,
}
use sshportal.Models.{User, UserRole, UserKey, Session}
use sshportal.Migrations.{
  Step, auto_migrate, recreate_index, create_role, promote_admins, fill_authorized_keys,
  clear_zero_stops, log_everything, Migration, migration, Migrator, each, promote,
  fill_authorized_key, clear_zero_stop, migrate_step, migrate,
}
use sshportal.Migrations.History.{
  migrations, tables_first, indexes, roles, sessions_and_keys, host_fields,
}

-- the columns of the models, by table
abbrev pub model_columns : List (String × String)
model_columns =
    ("settings", "name")
    ∷ ("settings", "value")
    ∷ ("ssh_keys", "name")
    ∷ ("ssh_keys", "type")
    ∷ ("ssh_keys", "length")
    ∷ ("ssh_keys", "fingerprint")
    ∷ ("ssh_keys", "priv_key")
    ∷ ("ssh_keys", "pub_key")
    ∷ ("ssh_keys", "comment")
    ∷ ("hosts", "name")
    ∷ ("hosts", "addr")
    ∷ ("hosts", "user")
    ∷ ("hosts", "password")
    ∷ ("hosts", "url")
    ∷ ("hosts", "ssh_key_id")
    ∷ ("hosts", "host_key")
    ∷ ("hosts", "comment")
    ∷ ("hosts", "logging")
    ∷ ("hosts", "hop_id")
    ∷ ("user_keys", "key")
    ∷ ("user_keys", "authorized_key")
    ∷ ("user_keys", "user_id")
    ∷ ("user_keys", "comment")
    ∷ ("user_roles", "name")
    ∷ ("users", "email")
    ∷ ("users", "name")
    ∷ ("users", "comment")
    ∷ ("users", "invite_token")
    ∷ ("user_groups", "name")
    ∷ ("user_groups", "comment")
    ∷ ("host_groups", "name")
    ∷ ("host_groups", "comment")
    ∷ ("acls", "host_pattern")
    ∷ ("acls", "action")
    ∷ ("acls", "weight")
    ∷ ("acls", "comment")
    ∷ ("acls", "inception")
    ∷ ("acls", "expiration")
    ∷ ("sessions", "stopped_at")
    ∷ ("sessions", "status")
    ∷ ("sessions", "user_id")
    ∷ ("sessions", "host_id")
    ∷ ("sessions", "err_msg")
    ∷ ("sessions", "comment")
    ∷ ("events", "author_id")
    ∷ ("events", "domain")
    ∷ ("events", "action")
    ∷ ("events", "entity")
    ∷ ("events", "args")
    ∷ []

abbrev all : {A : Type 0} → (A → Bool) → List A → Bool
all p [] = true
all p (x ∷ l) = p x && all p l

-- one of the structs of a list of migrations has the column
abbrev pub provided_by : String → String → Step → Bool
provided_by name column (auto_migrate t) = t.name == name && any (λ c. c == column) t.columns
provided_by name column _ = false

unfoldable pub provided : List Migration → String → String → Bool
provided [] name column = false
provided (migration _ step _ ∷ l) name column =
    provided_by name column step || provided l name column

module _ {S : Type 0} (m : Migrator S) (name column : String) where
  abbrev Has : S → Type 0
  Has s = m.has_column s name column ≡ true

  -- the columns of a state are those of another
  abbrev Same : S → S → Type 0
  Same s s' = m.has_column s' ≡ m.has_column s

  each_keeps :
      {R : Type 0} (f : R → S → Result String S)
      → ((r : R) (s s' : S) → f r s ≡ ok s' → Same s s')
      → (l : List R) (s s' : S) → each f l s ≡ ok s'
      → Same s s'
  unfolding each
  each_keeps f k [] s s' e = let q : s ≡ s' = cc in ap m.has_column (sym q)
  each_keeps f k (r ∷ l) s s' e =
      let p = both_succeed (f r s) (each f l) s' e in each_keeps f k l p.0 s' p.2 ∙ k r s p.0 p.1

  promote_keeps : (role : UserRole) (u : User) (s s' : S) → promote m role u s ≡ ok s' → Same s s'
  unfolding promote
  promote_keeps role u s s' e = m.save_user_keeps (record u { roles = u.roles ++ role ∷ [] }) s e

  fill_keeps : (k : UserKey) (s s' : S) → fill_authorized_key m k s ≡ ok s' → Same s s'
  unfolding fill_authorized_key
  fill_keeps k s s' e =
      let p =
        both_succeed (m.authorized_key k.key)
          (λ t. m.update_user_key (record k { authorized_key = t }) s) s' e in
      m.update_user_key_keeps (record k { authorized_key = p.0 }) s p.2

  clear_keeps : (x : Session) (s s' : S) → clear_zero_stop m x s ≡ ok s' → Same s s'
  unfolding clear_zero_stop
  clear_keeps x s s' e = ground (arith, m.clear_stop_keeps x s {s' = s'})

  carried : (s s' : S) → Same s s' → Has s → Has s'
  carried s s' q h = ap (λ f. f name column) q ∙ h

  step_keeps : (step : Step) (s s' : S) → migrate_step m step s ≡ ok s' → Has s → Has s'
  unfolding migrate_step
  step_keeps (auto_migrate t) s s' e h = m.auto_keeps t s name column e h
  step_keeps (recreate_index t i) s s' e h =
      let p = both_succeed (m.drop_index_of t i s) (m.create_index_of t i) s' e in
      carried s s' (m.create_index_keeps t i p.0 p.2 ∙ m.drop_index_keeps t i s p.1) h
  step_keeps (create_role n) s s' e h = carried s s' (m.add_role_keeps n s e) h
  step_keeps promote_admins s s' e h =
      let p =
        both_succeed (m.role_named "admin" s) (λ r. m.admins s >>= λ us. each (promote m r) us s) s'
          e in
      let q = both_succeed (m.admins s) (λ us. each (promote m p.0) us s) s' p.2 in
      carried s s' (each_keeps (promote m p.0) (promote_keeps p.0) q.0 s s' q.2) h
  step_keeps fill_authorized_keys s s' e h =
      let p = both_succeed (m.user_keys s) (λ ks. each (fill_authorized_key m) ks s) s' e in
      carried s s' (each_keeps (fill_authorized_key m) fill_keeps p.0 s s' p.2) h
  step_keeps clear_zero_stops s s' e h =
      let p = both_succeed (m.sessions s) (λ xs. each (clear_zero_stop m) xs s) s' e in
      carried s s' (each_keeps (clear_zero_stop m) clear_keeps p.0 s s' p.2) h
  step_keeps log_everything s s' e h = carried s s' (m.update_logging_keeps "everything" s e) h

  step_gives :
      (step : Step) (s s' : S)
      → migrate_step m step s ≡ ok s'
      → provided_by name column step ≡ true
      → Has s'
  unfolding migrate_step
  step_gives (auto_migrate t) s s' e h =
      let both : (t.name == name ≡ true) × (any (λ c. c == column) t.columns ≡ true) =
        ground arith in
      let same : t.name ≡ name = ground (arith, eq_iff t.name name) in
      subst (λ n. m.has_column s' n column ≡ true) same (m.auto_adds t s column e both.1)
  step_gives (recreate_index t i) s s' e h = absurd cc
  step_gives (create_role n) s s' e h = absurd cc
  step_gives promote_admins s s' e h = absurd cc
  step_gives fill_authorized_keys s s' e h = absurd cc
  step_gives clear_zero_stops s s' e h = absurd cc
  step_gives log_everything s s' e h = absurd cc

  migrate_keeps : (l : List Migration) (s s' : S) → migrate m l s ≡ ok s' → Has s → Has s'
  unfolding migrate
  migrate_keeps [] s s' e h =
      let q : s ≡ s' = cc in ap (λ x. m.has_column x name column) (sym q) ∙ h
  migrate_keeps (migration i step r ∷ l) s s' e h =
      let p = both_succeed (migrate_step m step s) (migrate m l) s' e in
      migrate_keeps l p.0 s' p.2 (step_keeps step s p.0 p.1 h)

  pub migrate_gives :
      (l : List Migration) (s s' : S)
      → migrate m l s ≡ ok s'
      → provided l name column ≡ true
      → Has s'
  unfolding migrate provided
  migrate_gives [] s s' e h = absurd cc
  migrate_gives (migration i step r ∷ l) s s' e h =
      let p = both_succeed (migrate_step m step s) (migrate m l) s' e in
      elim (Bool-cases (provided_by name column step)) [
        | inl t ↦ migrate_keeps l p.0 s' p.2 (step_gives step s p.0 p.1 t)
        | inr t ↦ migrate_gives l p.0 s' p.2 (ground arith)
      ]

provided-append :
    (n : ℕ) (l : List Migration) (name column : String)
    → (provided (take n l) name column || provided (drop n l) name column) ≡ provided l name column
unfolding provided
provided-append zero l name column = refl
provided-append (suc n) [] name column = refl
provided-append (suc n) (migration i step r ∷ l) name column =
    ground (arith, provided-append n l name column)

All-any :
    (l : List (String × String)) (P : String → String → Bool) (Q : String → String → Type 0)
    → ((t c : String) → P t c ≡ true → Q t c)
    → all (λ p. P p.0 p.1) l ≡ true
    → All (λ p. Q p.0 p.1) l
All-any [] P Q f h = tt
All-any ((t, c) ∷ l) P Q f h =
    let both : (P t c ≡ true) × (all (λ p. P p.0 p.1) l ≡ true) = ground arith in
    (f t c both.0, All-any l P Q f both.1)

every_model_column : all (λ p. provided migrations p.0 p.1) model_columns ≡ true
unfolding migrations tables_first indexes roles sessions_and_keys host_fields provided any
every_model_column = refl

module _ {S : Type 0} (m : Migrator S) where
  -- From any version of the database, that is after any number of the migrations, those that have not
  -- run leave every column that the models map, if no step fails.
  pub migrate_completes :
      (n : ℕ) (s s' : S)
      → ((t c : String) → provided (take n migrations) t c ≡ true → m.has_column s t c ≡ true)
      → migrate m (drop n migrations) s ≡ ok s'
      → All (λ p. m.has_column s' p.0 p.1 ≡ true) model_columns
  migrate_completes n s s' before e =
      All-any model_columns (provided migrations) (λ t c. m.has_column s' t c ≡ true)
        (λ t c h. elim (Bool-cases (provided (take n migrations) t c)) [
          | inl x ↦ migrate_keeps m t c (drop n migrations) s s' e (before t c x)
          | inr x ↦
              migrate_gives m t c (drop n migrations) s s' e
                (ground (arith, provided-append n migrations t c))
        ])
        every_model_column
