-- ===== src/Auth/Invites.antt =====
-- What an invitation leaves behind.
use mathlib.Core.Path.{subst}
use sshportal.Base.{
  ℕ, ◌<◌, String, split, second, find, find-append, find-map, ◌≡◌, ◌≢◌, refl, sym, ap, ◌∙◌, inl,
  inr, Bool, true, Option, none, some, [], ◌∷◌, arith, ltb, eqb, Option-cases, ◌==◌, eq_iff,
  if◌then◌else◌, equals_not,
}
use sshportal.Models.{User, UserKey, no_user}
use sshportal.Auth.Tables.{Accounts, updated}
use sshportal.Auth.{
  Config, AuthContext, welcome, user_type, is_invite, fresh, PublicKey, invited_key, found_user,
  found_key, known_key, save_key, save_user, invite_for_known_key, accept_invite, try_token,
  public_key_auth, by_pubkey,
}

-- Updates with a cleared token keeps the id of a row, and its token.
updated-id : (u row : User) → (updated u row).id ≡ row.id
updated-id u row = ground arith

updated-invite_token :
    (u row : User) → u.invite_token ≡ "" → (updated u row).invite_token ≡ row.invite_token
updated-invite_token u row e = ground (arith, eq_iff u.invite_token "")

positive : {n : ℕ} → 0 < n → ltb 0 n ≡ true
positive h = ground arith

module _ {S : Type 0} (db : Accounts S) (u : User) (s : S) where
  saved :
      {o : Option S}
      → db.update_user u s ≡ o
      → save_user db u s ≡ (elim o [ none ↦ s | some s' ↦ s' ])
  unfolding save_user
  saved {o} e = ap (λ (x : Option S). elim x as (λ _. S) [ none ↦ s | some s' ↦ s' ]) e

  -- a row that is found before a save is found after it, with its id
  find-save_user :
      (p : User → Bool)
      → ((a : User) → p (updated u a) ≡ p a)
      → {v : User} → find p (db.users s) ≡ some v
      → (w : User) × (find p (db.users (save_user db u s)) ≡ some w) × (w.id ≡ v.id)
  find-save_user p same {v} e = elim (Option-cases (db.update_user u s)) [
    | inl n ↦ (v, rw (saved n) e, refl)
    | inr (s', h) ↦ (
      updated u v,
      rw (saved h, db.users-update_user u s h, find-map p (updated u) (db.users s) same, e) refl,
      updated-id u v,
    )
  ]

  user_keys-save_user : db.user_keys (save_user db u s) ≡ db.user_keys s
  user_keys-save_user = elim (Option-cases (db.update_user u s)) [
    | inl n ↦ ap db.user_keys (saved n)
    | inr (s', h) ↦ ap db.user_keys (saved h) ∙ db.user_keys-update_user u s h
  ]

-- the user of an accepted invitation, and the state that the handler leaves
abbrev pub spent : User → User
spent u = record u { invite_token = "" }

abbrev pub after_invite : {S : Type 0} → Accounts S → User → S → S
after_invite db u s = save_user db (spent u) s

-- An unknown key comes with the token of user `u`, and the new key is stored.
module _ {S : Type 0} (db : Accounts S) (config : Config) (name token : String) (key : PublicKey)
    (u : User) (k : UserKey) (s s₁ : S) (unknown : db.first_key key.authorized s ≡ none)
    (invitation : is_invite (user_type name no_user) ≡ true)
    (part : second (split b':' name) ≡ some token) (given : token ≢ "")
    (found : db.first_invited token s ≡ some u) (real : 0 < u.id)
    (row : db.first_user u.id s ≡ some u)
    (stored : db.create_key (invited_key u key) s ≡ some (k, s₁)) where
  abbrev welcomed : AuthContext
  welcomed = record (fresh config name by_pubkey true) {
    user_key = k;
    user = spent u;
    message = welcome u.name u.email;
  }

  accepted : public_key_auth db config name key s ≡ some (welcomed, (after_invite db u s₁))
  unfolding public_key_auth found_key try_token found_user accept_invite save_key fresh
  accepted = rw (unknown, invitation, part, equals_not given, found, positive real, kept) refl
    where
      kept : save_key db (invited_key u key) s ≡ (k, s₁)
      kept =
          ap
            (λ (o : Option (UserKey × S)). elim o as (λ _. UserKey × S) [
              | none ↦ (invited_key u key, s)
              | some p ↦ p
            ])
            stored

  key_after : db.first_key key.authorized (after_invite db u s₁) ≡ some k
  unfolding find invited_key
  key_after =
      db.first_key_lem key.authorized (after_invite db u s₁)
      ∙ ap (find by_authorized)
          (user_keys-save_user db (spent u) s₁ ∙ db.user_keys-create_key _ s stored)
      ∙ find-append by_authorized (db.user_keys s) (k ∷ [])
          (sym (db.first_key_lem key.authorized s) ∙ unknown)
      ∙ found_last
    where
      by_authorized : UserKey → Bool
      by_authorized x = x.authorized_key == key.authorized

      same : k.authorized_key ≡ key.authorized
      same = ap (λ (x : UserKey). x.authorized_key) (db.create_key_row _ s stored)

      found_last : find by_authorized (k ∷ []) ≡ some k
      found_last = rw ((eq_iff k.authorized_key key.authorized).1 same) refl

  owner_of_key : k.user_id ≡ u.id
  unfolding invited_key
  owner_of_key = ap (λ (x : UserKey). x.user_id) (db.create_key_row _ s stored)

  user_after : (w : User) × (db.first_user u.id (after_invite db u s₁) ≡ some w) × (w.id ≡ u.id)
  user_after =
      let (w, e, i) =
        find-save_user db (spent u) s₁ (λ x. eqb x.id u.id)
          (λ x. ap (λ i. eqb i u.id) (updated-id (spent u) x)) {v = u}
          (ap (find (λ x. eqb x.id u.id)) (db.users-create_key _ s stored)
            ∙ sym (db.first_user_lem u.id s)
            ∙ row) in
      (w, db.first_user_lem u.id (after_invite db u s₁) ∙ e, i)

  token_after :
      (w : User) × (db.first_invited token (after_invite db u s₁) ≡ some w) × (w.id ≡ u.id)
  token_after =
      let (w, e, i) =
        find-save_user db (spent u) s₁ (λ x. x.invite_token == token)
          (λ x. ap (λ t. t == token) (updated-invite_token (spent u) x refl)) {v = u}
          (ap (find (λ x. x.invite_token == token)) (db.users-create_key _ s stored)
            ∙ sym (db.first_invited_lem token s)
            ∙ found) in
      (w, db.first_invited_lem token (after_invite db u s₁) ∙ e, i)

  -- A new key that comes with the token of a user, and is stored, is accepted; afterwards that key
  -- is accepted under any user name as that user's, with the stored key, and that changes nothing. It
  -- is without an error unless the user name is itself that of an invitation, and then the error is
  -- that the key is known already, with the address of the user.
  pub invite_then_login :
      (name' : String)
      → (first ctx : AuthContext) × (public_key_auth db config name key s
          ≡ some (first, after_invite db u s₁))
        × (public_key_auth db config name' key (after_invite db u s₁)
            ≡ some (ctx, (after_invite db u s₁)))
        × (ctx.user.id ≡ u.id)
        × (ctx.user_key ≡ k)
        × (ctx.error ≡ (
            if is_invite (user_type name' ctx.user)
            then some (invite_for_known_key ctx.user.email)
            else none))
  unfolding public_key_auth found_key known_key found_user
  invite_then_login name' =
      let (w, e, i) = user_after in
      (
        welcomed,
        known_key db (fresh config name' by_pubkey true) k (after_invite db u s₁),
        accepted,
        rw (key_after, owner_of_key, positive real) refl,
        rw (owner_of_key, e) i,
        refl,
        refl,
      )

  -- After a new key has been accepted with the token of a user, and was stored, the token is still
  -- good: with it a further unknown key, too, becomes a login of the user, without an error.
  pub invite_token_survives :
      (key' : PublicKey)
      → db.first_key key'.authorized (after_invite db u s₁) ≡ none
      → (first ctx : AuthContext) × (s' : S) × (public_key_auth db config name key s
          ≡ some (first, after_invite db u s₁))
        × (public_key_auth db config name key' (after_invite db u s₁) ≡ some (ctx, s'))
        × (ctx.user.id ≡ u.id)
        × (ctx.error ≡ none)
  unfolding public_key_auth found_key try_token found_user accept_invite fresh
  invite_token_survives key' fresh_key =
      let (w, e, i) = token_after in
      let (ctx, s') =
        accept_invite db (fresh config name by_pubkey true) w key' (after_invite db u s₁) in
      (
        welcomed,
        ctx,
        s',
        accepted,
        rw
            (
              fresh_key,
              invitation,
              part,
              equals_not given,
              e,
              positive (subst (λ n. 0 < n) (sym i) real),
            )
            refl,
        i,
        refl,
      )
