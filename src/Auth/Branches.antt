-- ===== src/Auth/Branches.antt =====
-- The three ways through PublicKeyAuthHandler.
use text.Mathlib.TextEquality.{starts_with_iff}
use text.Mathlib.TextLemmas.{append_assoc}
use sshportal.Base.{
  ◌<◌, String, ◌<>◌, colon-append, split, split-append, split-ne-nil, second, second-cons,
  starts_with, ◌≡◌, refl, sym, ap, ◌∙◌, inl, inr, true, false, Option, none, some, ◌∷◌, arith, ltb,
  Bool-cases,
}
use sshportal.Models.{User, UserKey, no_user}
use sshportal.Auth.Tables.{Accounts}
use sshportal.Auth.{
  Config, AuthContext, user_type, is_invite, fresh, PublicKey, anonymous, found_user, found_key,
  known_key, try_token, public_key_auth, by_pubkey, unknown_key,
}

invite_prefix :
    (name : String) (user : User)
    → is_invite (user_type name user) ≡ true
    → starts_with name "invite:" ≡ true
unfolding user_type is_invite
invite_prefix name user h = ground arith

-- the two sides of the first ":"
split-invite : (t : String) → split b':' ("invite:" <> t) ≡ "invite" ∷ split b':' t
split-invite t =
    ap (split b':') (append_assoc "invite" ":" t ∙ ap (λ u. "invite" <> u) (colon-append t))
    ∙ split-append b':' "invite" t ":" (omega arith) refl

invite_token :
    (name : String) (user : User)
    → is_invite (user_type name user) ≡ true
    → (token : String) × (second (split b':' name) ≡ some token)
invite_token name user h =
    let (t, e) = (starts_with_iff name "invite:").0 (invite_prefix name user h) in
    let (token, p) = second-cons "invite" (split b':' t) (split-ne-nil b':' t) in
    (token, ap (λ n. second (split b':' n)) (sym e) ∙ ap second (split-invite t) ∙ p)

found_key_pos : (o : Option UserKey) → 0 < (found_key o).user_id → o ≡ some (found_key o)
unfolding found_key
found_key_pos none h = absurd (omega arith)
found_key_pos (some k) h = refl

pub found_user_pos : (o : Option User) → 0 < (found_user o).id → o ≡ some (found_user o)
unfolding found_user
found_user_pos none h = absurd (omega arith)
found_user_pos (some k) h = refl

-- What the handler returns: for a known key its owner, for an invitation what the token is good for,
-- and otherwise an anonymous user with an error.
pub data Branch {S : Type 0} (db : Accounts S) (config : Config) (name : String) (key : PublicKey)
    (s : S) (r : Option (AuthContext × S)) : Type 0 where
  by_key :
      (k : UserKey)
      → db.first_key key.authorized s ≡ some k
      → 0 < k.user_id
      → r ≡ some (known_key db (fresh config name by_pubkey true) k s, s)
      → Branch db config name key s r
  by_token :
      (token : String)
      → (found_key (db.first_key key.authorized s)).user_id ≡ 0
      → starts_with name "invite:" ≡ true
      → second (split b':' name) ≡ some token
      → r
        ≡ some (
            try_token db
              (record (fresh config name by_pubkey true) {
                user_key = found_key (db.first_key key.authorized s);
              })
              token
              key
              s)
      → Branch db config name key s r
  by_nothing :
      (found_key (db.first_key key.authorized s)).user_id ≡ 0
      → is_invite (user_type name no_user) ≡ false
      → r
        ≡ some (
          record (fresh config name by_pubkey true) {
            user_key = found_key (db.first_key key.authorized s);
            error = some unknown_key;
            user = anonymous;
          },
          s,
        )
      → Branch db config name key s r

pub public_key_auth-Branch :
    {S : Type 0} (db : Accounts S) (config : Config) (name : String) (key : PublicKey) (s : S)
    → Branch db config name key s (public_key_auth db config name key s)
unfolding public_key_auth fresh
public_key_auth-Branch db config name key s =
    elim (Bool-cases (ltb 0 (found_key (db.first_key key.authorized s)).user_id)) [
      | inl e ↦
          by_key (found_key (db.first_key key.authorized s))
            (found_key_pos (db.first_key key.authorized s) (ground arith)) (ground arith)
            (rw e refl)
      | inr e ↦ elim (Bool-cases (is_invite (user_type name no_user))) [
        | inl i ↦
            let (token, t) = invite_token name no_user i in
            by_token token (ground arith) (invite_prefix name no_user i) t (rw (e, i, t) refl)
        | inr i ↦ by_nothing (ground arith) i (rw (e, i) refl)
      ]
    ]
