-- ===== src/Auth/Tables.antt =====
-- The tables of users and of user keys, as gorm keeps them. `users` and `user_keys` are their rows in
-- the order of the primary key, the soft-deleted ones left out.
use sshportal.Base.{
  ℕ, String, ◌≡◌, Option, some, List, [], ◌∷◌, ◌++◌, map, find, eqb, ◌==◌, if◌then◌else◌,
}
use sshportal.Models.{User, UserKey}

-- gorm's Updates with a struct writes the fields that are not zero, and leaves the other columns.
abbrev pub nonzero : String → String → String
nonzero old new = if new == "" then old else new

abbrev pub updated : User → User → User
updated u row =
    if eqb row.id u.id
    then record row {
      email = nonzero row.email u.email;
      name = nonzero row.name u.name;
      comment = nonzero row.comment u.comment;
      invite_token = nonzero row.invite_token u.invite_token;
    }
    else row

pub record Accounts (S : Type 0) : Type 0 where
  pub users : S → List User
  pub user_keys : S → List UserKey
  -- Where("authorized_key = ?", a).First
  pub first_key : String → S → Option UserKey
  pub first_key_lem :
      (a : String) (s : S) → first_key a s ≡ find (λ k. k.authorized_key == a) (user_keys s)
  -- Preload("Roles").Where("id = ?", i).First
  pub first_user : ℕ → S → Option User
  pub first_user_lem : (i : ℕ) (s : S) → first_user i s ≡ find (λ u. eqb u.id i) (users s)
  -- Where("invite_token = ?", t).First
  pub first_invited : String → S → Option User
  pub first_invited_lem :
      (t : String) (s : S) → first_invited t s ≡ find (λ u. u.invite_token == t) (users s)
  -- Create(&key), which fills the id in; `none` is an error
  pub create_key : UserKey → S → Option (UserKey × S)
  pub create_key_row :
      (k : UserKey) (s : S) {k' : UserKey} {s' : S}
      → create_key k s ≡ some (k', s')
      → k' ≡ record k { id = k'.id }
  pub user_keys-create_key :
      (k : UserKey) (s : S) {k' : UserKey} {s' : S}
      → create_key k s ≡ some (k', s')
      → user_keys s' ≡ user_keys s ++ k' ∷ []
  pub users-create_key :
      (k : UserKey) (s : S) {k' : UserKey} {s' : S}
      → create_key k s ≡ some (k', s')
      → users s' ≡ users s
  -- Model(&u).Updates(&u); `none` is an error
  pub update_user : User → S → Option S
  pub users-update_user :
      (u : User) (s : S) {s' : S} → update_user u s ≡ some s' → users s' ≡ map (updated u) (users s)
  pub user_keys-update_user :
      (u : User) (s : S) {s' : S} → update_user u s ≡ some s' → user_keys s' ≡ user_keys s
