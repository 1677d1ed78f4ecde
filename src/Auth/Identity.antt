-- ===== src/Auth/Identity.antt =====
-- Whom an authenticated connection stands for.
use mathlib.Core.Path.{subst}
use mathlib.Core.Option.{some-injective}
use sshportal.Base.{
  ℕ, ◌<◌, String, split, second, starts_with, Mem, find_sound, ◌≡◌, ◌≢◌, refl, sym, ap, ◌∙◌, ◌↔◌,
  inl, inr, true, some, arith, ltb, eqb, eqb_iff, Bool-cases, ◌==◌, eq_iff, differs,
}
use sshportal.Models.{User, UserKey}
use sshportal.Auth.Tables.{Accounts}
use sshportal.Auth.Branches.{by_key, by_token, by_nothing, public_key_auth-Branch, found_user_pos}
use sshportal.Auth.{
  Config, AuthContext, user_type, is_healthcheck, fresh, password_auth, PublicKey, found_user,
  known_key, accept_invite, try_token, public_key_auth, by_pubkey,
}

-- A password is accepted for the user name `healthcheck` alone.
pub password_auth_iff :
    (config : Config) (name : String)
    → ((password_auth config name).auth_success ≡ true) ↔ (name ≡ "healthcheck")
unfolding password_auth user_type is_healthcheck
password_auth_iff config name =
    (λ e. ground (arith, eq_iff name "healthcheck"), λ e. ground (arith, eq_iff name "healthcheck"))

-- PublicKeyAuthHandler never panics: an invitation has a part behind its colon.
pub public_key_auth_total :
    {S : Type 0} (db : Accounts S) (config : Config) (name : String) (key : PublicKey) (s : S)
    → (r : AuthContext × S) × (public_key_auth db config name key s ≡ some r)
public_key_auth_total db config name key s = elim (public_key_auth-Branch db config name key s) [
  | by_key _ _ _ e ↦ (_, e)
  | by_token _ _ _ _ e ↦ (_, e)
  | by_nothing _ _ e ↦ (_, e)
]

-- The grounds on which a connection stands for a user of the database.
pub data Entitled {S : Type 0} (db : Accounts S) (name : String) (key : PublicKey) (s : S)
    (user : User) : Type 0 where
  owner :
      (k : UserKey)
      → Mem k (db.user_keys s)
      → k.authorized_key ≡ key.authorized
      → Mem user (db.users s)
      → user.id ≡ k.user_id
      → Entitled db name key s user
  invited :
      (row : User) (token : String)
      → starts_with name "invite:" ≡ true
      → second (split b':' name) ≡ some token
      → token ≢ ""
      → Mem row (db.users s)
      → row.invite_token ≡ token
      → user ≡ record row { invite_token = "" }
      → Entitled db name key s user

module _ {S : Type 0} (db : Accounts S) (name : String) (key : PublicKey) (s : S) where
  key_row :
      (a : String) (k : UserKey)
      → db.first_key a s ≡ some k
      → Mem k (db.user_keys s) × (k.authorized_key ≡ a)
  key_row a k e =
      let (m, t) =
        find_sound (λ (x : UserKey). x.authorized_key == a) (db.user_keys s) {a = k}
          (sym (db.first_key_lem a s) ∙ e) in
      (m, (eq_iff _ _).0 t)

  user_row : (i : ℕ) (u : User) → db.first_user i s ≡ some u → Mem u (db.users s) × (u.id ≡ i)
  user_row i u e =
      let (m, t) =
        find_sound (λ (x : User). eqb x.id i) (db.users s) {a = u}
          (sym (db.first_user_lem i s) ∙ e) in
      (m, (eqb_iff _ _).0 t)

  invited_row :
      (t : String) (u : User)
      → db.first_invited t s ≡ some u
      → Mem u (db.users s) × (u.invite_token ≡ t)
  invited_row t u e =
      let (m, q) =
        find_sound (λ (x : User). x.invite_token == t) (db.users s) {a = u}
          (sym (db.first_invited_lem t s) ∙ e) in
      (m, (eq_iff _ _).0 q)

  known_key-Entitled :
      (ctx : AuthContext) (k : UserKey)
      → db.first_key key.authorized s ≡ some k
      → 0 < (known_key db ctx k s).user.id
      → Entitled db name key s (known_key db ctx k s).user
  unfolding known_key
  known_key-Entitled ctx k e pos =
      let (m, a) = key_row key.authorized k e in
      let (n, i) =
        user_row k.user_id (found_user (db.first_user k.user_id s))
          (found_user_pos (db.first_user k.user_id s) pos) in
      owner k m a n i

  try_token-Entitled :
      (ctx : AuthContext) (token : String)
      → starts_with name "invite:" ≡ true
      → second (split b':' name) ≡ some token
      → 0 < (try_token db ctx token key s).0.user.id
      → Entitled db name key s (try_token db ctx token key s).0.user
  unfolding try_token accept_invite
  try_token-Entitled ctx token pre t pos = elim (Bool-cases (token == "")) [
    | inl e ↦ absurd (ground arith)
    | inr e ↦ elim (Bool-cases (ltb 0 (found_user (db.first_invited token s)).id)) [
      | inl p ↦
          let (m, q) =
            invited_row token (found_user (db.first_invited token s))
              (found_user_pos (db.first_invited token s) (ground arith)) in
          invited (found_user (db.first_invited token s)) token pre t (differs e) m q
            (rw (e, p) refl)
      | inr p ↦ absurd (ground arith)
    ]
  ]

  -- A connection that ends up as a user with an id, whatever name and key it offers, is that of the
  -- owner of a stored key equal to the offered one, or of the holder of a user's invite token.
  pub public_key_auth-Entitled :
      (config : Config) {ctx : AuthContext} {s' : S}
      → public_key_auth db config name key s ≡ some (ctx, s')
      → 0 < ctx.user.id
      → Entitled db name key s ctx.user
  public_key_auth-Entitled config {ctx} {s'} e pos =
      elim (public_key_auth-Branch db config name key s) [
        | by_key k f _ r ↦
            subst Goal (same r) (known_key-Entitled (fresh config name by_pubkey true) k f) pos
        | by_token token _ pre t r ↦ subst Goal (same r) (try_token-Entitled _ token pre t) pos
        | by_nothing _ _ r ↦ subst Goal (same r) (λ p. absurd (omega arith)) pos
      ]
    where
      Goal : AuthContext → Type 0
      Goal c = 0 < c.user.id → Entitled db name key s c.user

      same : {q : AuthContext × S} → public_key_auth db config name key s ≡ some q → q.0 ≡ ctx
      same {q} r = ap (λ (x : AuthContext × S). x.0) (some-injective q (ctx, s') (sym r ∙ e))
