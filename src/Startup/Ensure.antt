-- ===== src/Startup/Ensure.antt =====
-- What one step of the seeding does: nothing where such a row is there, and else the creation of one.
use sshportal.Base.{
  ℕ, String, ◌≡◌, refl, sym, ap, ◌∙◌, Bool, true, false, List, [], ◌∷◌, ◌++◌, map, filter, any,
  ◌==◌, if◌then◌else◌, Result, ok, err, Result-cases, arith, ◌⊎◌, inl, inr, Bool-cases, List-cases,
}
use sshportal.Models.{Acl, UserGroup, HostGroup, User, SshKey, Session}
use sshportal.Shell.Store.{Table, Gorm}
use sshportal.Startup.{Opened, InitError, is_active, halted, ensure}

-- the tables that get a row
pub data Kind : Type 0 where
  keys host_groups user_groups acls users : Kind

abbrev pub Row : Kind → Type 0
Row keys = SshKey
Row host_groups = HostGroup
Row user_groups = UserGroup
Row acls = Acl
Row users = User

abbrev pub table_of : {S : Type 0} → Gorm S → (k : Kind) → Table S (Row k)
table_of g keys = g.ssh_keys
table_of g host_groups = g.host_groups
table_of g user_groups = g.user_groups
table_of g acls = g.acls
table_of g users = g.users

-- the six tests with which the seeding asks whether a table has such a row
pub data Sought : (k : Kind) → (Row k → Bool) → Type 0 where
  default_key : Sought keys (λ k. k.name == "default")
  host_key : Sought keys (λ k. k.name == "host")
  host_group_sought : Sought host_groups (λ h. h.name == "default")
  user_group_sought : Sought user_groups (λ u. u.name == "default")
  some_acl : Sought acls (λ _. true)
  some_user : Sought users (λ _. true)

-- Create takes no row away from any table and renames none, though it may link the rows of other
-- tables to the new one; an id is no other column; Updates of the sessions leave the other tables
-- alone.
pub record Apart {S : Type 0} (d : Opened S) : Type 0 where
  pub create_keeps :
      (j k : Kind) (p : Row k → Bool) (r r' : Row j) (s s' : S)
      → Sought k p
      → (table_of d.gorm j).create r s ≡ ok (r', s')
      → any p ((table_of d.gorm k).rows s) ≡ true
      → any p ((table_of d.gorm k).rows s') ≡ true
  pub sessions_keep :
      (k : Kind) (p : Session → Bool) (f : Session → Session) (s s' : S)
      → d.update_sessions p f s ≡ ok s'
      → (table_of d.gorm k).rows s' ≡ (table_of d.gorm k).rows s
  pub key_name : (n : ℕ) (r : SshKey) → (d.gorm.ssh_keys.with_id n r).name ≡ r.name
  pub host_group_name : (n : ℕ) (r : HostGroup) → (d.gorm.host_groups.with_id n r).name ≡ r.name
  pub user_group_name : (n : ℕ) (r : UserGroup) → (d.gorm.user_groups.with_id n r).name ≡ r.name

module _ {S : Type 0} (d : Opened S) where
  -- some row of a table passes a test
  abbrev pub HasRow : (k : Kind) → (Row k → Bool) → S → Type 0
  HasRow k p s = any p ((table_of d.gorm k).rows s) ≡ true

  -- the keys `default` and `host`, both groups `default`, an ACL and a user
  abbrev pub Established : S → Type 0
  Established s =
      HasRow keys (λ k. k.name == "default") s
      × HasRow keys (λ k. k.name == "host") s
      × HasRow host_groups (λ h. h.name == "default") s
      × HasRow user_groups (λ u. u.name == "default") s
      × HasRow acls (λ _. true) s
      × HasRow users (λ _. true) s

filter-nil : {A : Type 0} (p : A → Bool) (l : List A) → [] ≡ filter p l → any p l ≡ false
unfolding filter any
filter-nil p [] h = refl
filter-nil p (x ∷ l) h = ground (arith, filter-nil p l)

any-snoc :
    {A : Type 0} (p : A → Bool) (l : List A) (x : A) → p x ≡ true → any p (l ++ x ∷ []) ≡ true
unfolding any
any-snoc p [] x h = ground arith
any-snoc p (y ∷ l) x h = ground (arith, any-snoc p l x h)

closed_now : (x : Session) → is_active (if is_active x then halted x else x) ≡ false
unfolding halted
closed_now x = elim (Bool-cases (is_active x)) [ inl t ↦ rw t refl | inr t ↦ rw (t, t) refl ]

pub none_active :
    (l : List Session) → any is_active (map (λ x. if is_active x then halted x else x) l) ≡ false
unfolding any
none_active [] = refl
none_active (x ∷ l) = rw (closed_now x, none_active l) refl

filter-cons :
    {A : Type 0} (p : A → Bool) (l : List A) (x : A) (xs : List A)
    → x ∷ xs ≡ filter p l
    → any p l ≡ true
unfolding filter any
filter-cons p [] x xs h = absurd cc
filter-cons p (y ∷ l) x xs h = ground (arith, filter-cons p l x xs)

-- what ensure did, if it succeeded: nothing where such a row is there, and else the creation of one
module _ {S R : Type 0} (t : Table S R) (p : R → Bool) (make : S → Result InitError R)
    (s s' : S) where
  abbrev Made : Type 0
  Made =
      (r : R) × (r' : R) × (any p (t.rows s) ≡ false)
      × (make s ≡ ok r)
      × (t.create r s ≡ ok (r', s'))

  making : t.find p s ≡ ok [] → ensure t p make s ≡ ok s' → Made
  unfolding ensure
  making q e = elim (Result-cases (make s)) [
    | inl (x, k) ↦ absurd (ground arith)
    | inr (r, k) ↦ elim (Result-cases (t.create r s)) [
      | inl (x, c) ↦ absurd (ground arith)
      | inr ((r', s''), c) ↦
          let same : s'' ≡ s' = ground arith in
          (r, r', filter-nil p (t.rows s) (t.find_lem p s q), k, c ∙ ap (λ x. ok (r', x)) same)
    ]
  ]

  ensure_cases : ensure t p make s ≡ ok s' → ((s' ≡ s) × (any p (t.rows s) ≡ true)) ⊎ Made
  unfolding ensure
  ensure_cases e = elim (Result-cases (t.find p s)) [
    | inl (x, q) ↦ absurd (refused x q e)
    | inr (l, q) ↦ elim (List-cases l) [
      | inl c ↦ inr (making (q ∙ ap ok c) e)
      | inr (x, xs, c) ↦
          inl (idle x xs (q ∙ ap ok c) e, filter-cons p (t.rows s) x xs (sym c ∙ t.find_lem p s q))
    ]
  ]
    where
      refused : (x : String) → t.find p s ≡ err x → ensure t p make s ≡ ok s' → ⊥
      refused x q e = ground arith

      idle : (x : R) (xs : List R) → t.find p s ≡ ok (x ∷ xs) → ensure t p make s ≡ ok s' → s' ≡ s
      idle x xs q e = ground arith

  pub ensure_idle : any p (t.rows s) ≡ true → ensure t p make s ≡ ok s' → s' ≡ s
  ensure_idle h e = elim (ensure_cases e) [
    | inl c ↦ c.0
    | inr (r, r', n, k, c) ↦ absurd (ground arith)
  ]

-- the row that was there, or is made, is there
module _ {S : Type 0} (d : Opened S) (apart : Apart d) (k : Kind) (p : Row k → Bool)
    (make : S → Result InitError (Row k)) (s s' : S) where
  pub gives :
      ((r : Row k) (n : ℕ) → make s ≡ ok r → p ((table_of d.gorm k).with_id n r) ≡ true)
      → ensure (table_of d.gorm k) p make s ≡ ok s'
      → HasRow d k p s'
  gives f e = elim (ensure_cases (table_of d.gorm k) p make s s' e) [
    | inl (same, h) ↦ ap (λ x. any p ((table_of d.gorm k).rows x)) same ∙ h
    | inr (r, r', n, q, c) ↦
        let t = table_of d.gorm k in
        let row = t.create_row r s c in
        let passes : p r' ≡ true = ap p row ∙ f r (t.columns r').id q in
        ap (any p) (t.create_lem r s c) ∙ any-snoc p (t.rows s) r' passes
  ]

  pub keeps :
      (j : Kind) (q : Row j → Bool)
      → Sought j q
      → HasRow d j q s
      → ensure (table_of d.gorm k) p make s ≡ ok s'
      → HasRow d j q s'
  keeps j q t h e = elim (ensure_cases (table_of d.gorm k) p make s s' e) [
    | inl (same, _) ↦ ap (λ x. any q ((table_of d.gorm j).rows x)) same ∙ h
    | inr (r, r', _, _, c) ↦ apart.create_keeps k j q r r' s s' t c h
  ]
