-- ===== src/Startup/Seeding.antt =====
-- What DBInit leaves in the database.
use mathlib.Core.Path.{subst}
use sshportal.Base.{
  ℕ, String, ◌≡◌, refl, sym, ap, ◌∙◌, Bool, true, false, any, ◌==◌, Result, ok, err, both_succeed,
  Result-cases, arith, eq_refl, drop, inl, inr,
}
use sshportal.Models.{SshKey}
use sshportal.Crypto.Keys.{new_ssh_key}
use sshportal.Migrations.{Migrator, migrate}
use sshportal.Migrations.History.{migrations}
use sshportal.Startup.{
  Surroundings, Opened, InitError, as_failure, is_active, halted, ensure, fresh_key,
  default_host_group, default_user_group, default_acl, first_admin, log_migrated, seed_rows,
  close_sessions, db_init,
}
use sshportal.Startup.Ensure.{
  Kind, keys, host_groups, user_groups, acls, users, Row, table_of, Sought, default_key,
  host_group_sought, user_group_sought, some_acl, some_user, Apart, HasRow, Established,
  none_active, ensure_idle, gives, keeps,
}

fresh_name :
    {S : Type 0} (d : Opened S) (apart : Apart d) (env : Surroundings) (name : String) (s : S)
    (r : SshKey) (n : ℕ)
    → fresh_key d env name s ≡ ok r
    → ((d.gorm.ssh_keys.with_id n r).name == name) ≡ true
unfolding fresh_key
fresh_name d apart env name s r n e = elim (Result-cases (new_ssh_key env.generators "ed25519" 1)) [
  | inl (x, q) ↦ absurd (ground arith)
  | inr (key, q) ↦
      let named : r.name ≡ name = ground arith in
      ap (λ t. t == name) (apart.key_name n r ∙ named) ∙ eq_refl name
]

made_of :
    {A : Type 0} {a r : A} (p : A → Bool)
    → ◌≡◌ {A = Result InitError A} (ok a) (ok r)
    → p a ≡ true
    → p r ≡ true
made_of {A} {a} {r} p q h = let same : a ≡ r = cc in ap p (sym same) ∙ h

not_failed : {A : Type 0} (r : Result String A) {a : A} → as_failure r ≡ ok a → r ≡ ok a
not_failed (ok x) h = cc
not_failed (err x) h = absurd cc

named_so : {t name : String} → t ≡ name → (t == name) ≡ true
named_so {t} {name} h = ap (λ x. x == name) h ∙ eq_refl name

module _ {S : Type 0} (d : Opened S) (env : Surroundings) where
  -- one of the six steps
  abbrev Step : (k : Kind) → (Row k → Bool) → (S → Result InitError (Row k)) → S → S → Type 0
  Step k p make s s' = ensure (table_of d.gorm k) p make s ≡ ok s'

  abbrev Trail : S → S → Type 0
  Trail s s' =
      (s₁ : S) × (s₂ : S) × (s₃ : S) × (s₄ : S) × (s₅ : S) × Step keys (λ k. k.name == "default")
        (fresh_key d env "default") s s₁
      × Step host_groups (λ h. h.name == "default") (λ _. ok default_host_group) s₁ s₂
      × Step user_groups (λ u. u.name == "default") (λ _. ok default_user_group) s₂ s₃
      × Step acls (λ _. true) (default_acl d env) s₃ s₄
      × Step users (λ _. true) (first_admin d env) s₄ s₅
      × Step keys (λ k. k.name == "host") (fresh_key d env "host") s₅ s'

  trail : (s s' : S) → seed_rows d env s ≡ ok s' → Trail s s'
  unfolding seed_rows
  trail s s' e =
      let p₁ =
        both_succeed
          (ensure d.gorm.ssh_keys (λ k. k.name == "default") (fresh_key d env "default") s) _ s'
          e in
      let p₂ =
        both_succeed
          (ensure d.gorm.host_groups (λ h. h.name == "default") (λ _. ok default_host_group) p₁.0) _
          s' p₁.2 in
      let p₃ =
        both_succeed
          (ensure d.gorm.user_groups (λ u. u.name == "default") (λ _. ok default_user_group) p₂.0) _
          s' p₂.2 in
      let p₄ = both_succeed (ensure d.gorm.acls (λ _. true) (default_acl d env) p₃.0) _ s' p₃.2 in
      let p₅ = both_succeed (ensure d.gorm.users (λ _. true) (first_admin d env) p₄.0) _ s' p₄.2 in
      (p₁.0, p₂.0, p₃.0, p₄.0, p₅.0, p₁.1, p₂.1, p₃.1, p₄.1, p₅.1, p₅.2)

  -- A database that has its keys, groups, ACL and user gets no further row: the seeding, where it
  -- succeeds, leaves it as it is.
  pub seed_idle : (s s' : S) → Established d s → seed_rows d env s ≡ ok s' → s' ≡ s
  seed_idle s s' all e =
      let (s₁, s₂, s₃, s₄, s₅, e₁, e₂, e₃, e₄, e₅, e₆) = trail s s' e in
      let still : (x : S) → x ≡ s → Established d x = λ x q. subst (Established d) (sym q) all in
      let q₁ =
        ensure_idle d.gorm.ssh_keys (λ k. k.name == "default") (fresh_key d env "default") s s₁
          all.0 e₁ in
      let q₂ =
        ensure_idle d.gorm.host_groups (λ h. h.name == "default") (λ _. ok default_host_group) s₁ s₂
          (still s₁ q₁).2 e₂
        ∙ q₁ in
      let q₃ =
        ensure_idle d.gorm.user_groups (λ u. u.name == "default") (λ _. ok default_user_group) s₂ s₃
          (still s₂ q₂).3 e₃
        ∙ q₂ in
      let q₄ =
        ensure_idle d.gorm.acls (λ _. true) (default_acl d env) s₃ s₄ (still s₃ q₃).4 e₄ ∙ q₃ in
      let q₅ =
        ensure_idle d.gorm.users (λ _. true) (first_admin d env) s₄ s₅ (still s₄ q₄).5 e₅ ∙ q₄ in
      ensure_idle d.gorm.ssh_keys (λ k. k.name == "host") (fresh_key d env "host") s₅ s'
        (still s₅ q₅).1 e₆
      ∙ q₅

  module _ (apart : Apart d) where
    host_group_made :
        (n : ℕ) → ((d.gorm.host_groups.with_id n default_host_group).name == "default") ≡ true
    unfolding default_host_group
    host_group_made n = named_so (apart.host_group_name n default_host_group)

    user_group_made :
        (n : ℕ) → ((d.gorm.user_groups.with_id n default_user_group).name == "default") ≡ true
    unfolding default_user_group
    user_group_made n = named_so (apart.user_group_name n default_user_group)

    seed-Established : (s s' : S) → seed_rows d env s ≡ ok s' → Established d s'
    seed-Established s s' e =
        let (s₁, s₂, s₃, s₄, s₅, e₁, e₂, e₃, e₄, e₅, e₆) = trail s s' e in
        let Stays = λ (x : S).
          (j : Kind) (q : Row j → Bool) → Sought j q → HasRow d j q x → HasRow d j q s' in
        let k₆ : Stays s₅ = λ j q t h.
          keeps d apart keys (λ k. k.name == "host") (fresh_key d env "host") s₅ s' j q t h e₆ in
        let k₅ : Stays s₄ = λ j q t h.
          k₆ j q t (keeps d apart users (λ _. true) (first_admin d env) s₄ s₅ j q t h e₅) in
        let k₄ : Stays s₃ = λ j q t h.
          k₅ j q t (keeps d apart acls (λ _. true) (default_acl d env) s₃ s₄ j q t h e₄) in
        let k₃ : Stays s₂ = λ j q t h. k₄ j q t (
          keeps d apart user_groups (λ u. u.name == "default") (λ _. ok default_user_group) s₂ s₃ j
            q t h e₃) in
        let k₂ : Stays s₁ = λ j q t h. k₃ j q t (
          keeps d apart host_groups (λ h. h.name == "default") (λ _. ok default_host_group) s₁ s₂ j
            q t h e₂) in
        (
          k₂ keys (λ k. k.name == "default") default_key
              (gives d apart keys (λ k. k.name == "default") (fresh_key d env "default") s s₁
                (λ r n q. fresh_name d apart env "default" s r n q) e₁),
          gives d apart keys (λ k. k.name == "host") (fresh_key d env "host") s₅ s'
              (λ r n q. fresh_name d apart env "host" s₅ r n q) e₆,
          k₃ host_groups (λ h. h.name == "default") host_group_sought
              (gives d apart host_groups (λ h. h.name == "default") (λ _. ok default_host_group) s₁
                s₂
                (λ r n q.
                  made_of (λ x. (d.gorm.host_groups.with_id n x).name == "default") q
                    (host_group_made n))
                e₂),
          k₄ user_groups (λ u. u.name == "default") user_group_sought
              (gives d apart user_groups (λ u. u.name == "default") (λ _. ok default_user_group) s₂
                s₃
                (λ r n q.
                  made_of (λ x. (d.gorm.user_groups.with_id n x).name == "default") q
                    (user_group_made n))
                e₃),
          k₅ acls (λ _. true) some_acl
              (gives d apart acls (λ _. true) (default_acl d env) s₃ s₄ (λ r n q. refl) e₄),
          k₆ users (λ _. true) some_user
              (gives d apart users (λ _. true) (first_admin d env) s₄ s₅ (λ r n q. refl) e₅),
        )

    -- After a start, that is where DBInit succeeds from whatever version and whatever rows, there
    -- are the keys `default` and `host`, both groups `default`, an ACL and a user, and no session
    -- is active: if Create takes away and renames none of these rows, gives a row its name, and the
    -- update of the sessions leaves the other tables alone.
    pub db_init-Established :
        (m : Migrator S) (version : ℕ) (s s' : S)
        → db_init d env m version s ≡ ok s'
        → Established d s' × (any is_active (d.gorm.sessions.rows s') ≡ false)
    unfolding db_init close_sessions
    db_init-Established m version s s' e =
        let p = both_succeed (as_failure (migrate m (drop version migrations) s)) _ s' e in
        let q = both_succeed (seed_rows d env (log_migrated d env p.0)) _ s' p.2 in
        let u : d.update_sessions is_active halted q.0 ≡ ok s' =
          not_failed (d.update_sessions is_active halted q.0) q.2 in
        let same : (k : Kind) → (table_of d.gorm k).rows s' ≡ (table_of d.gorm k).rows q.0 =
          λ k. apart.sessions_keep k is_active halted q.0 s' u in
        let est = seed-Established (log_migrated d env p.0) q.0 q.1 in
        (
          (
            ap (any (λ k. k.name == "default")) (same keys) ∙ est.0,
            ap (any (λ k. k.name == "host")) (same keys) ∙ est.1,
            ap (any (λ h. h.name == "default")) (same host_groups) ∙ est.2,
            ap (any (λ u. u.name == "default")) (same user_groups) ∙ est.3,
            ap (any (λ _. true)) (same acls) ∙ est.4,
            ap (any (λ _. true)) (same users) ∙ est.5,
          ),
          ap (any is_active) (d.update_sessions_lem is_active halted q.0 u)
              ∙ none_active (d.gorm.sessions.rows q.0),
        )
