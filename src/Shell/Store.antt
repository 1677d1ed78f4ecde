-- ===== src/Shell/Store.antt =====
-- The database as the shell uses it through gorm, with what gorm documents of its calls. A refused
-- call returns an error and changes nothing.
use sshportal.Base.{
  ℕ, String, ◌≡◌, Bool, not, List, [], ◌∷◌, ◌++◌, map, take, drop, filter, any, length, eqb, Mem,
  true, if◌then◌else◌, Result, ok, Option, none, some, ◌==◌,
}
use sshportal.Models.{Acl, UserGroup, HostGroup, User, UserKey, UserRole, SshKey, Host, Session}
use sshportal.Lookup.{Columns, Event, Where, holds}

pub record Table (S R : Type 0) : Type 0 where
  pub rows : S → List R
  pub columns : R → Columns
  pub with_id : ℕ → R → R
  -- the time stamps of a row, updated and created
  pub updated_at : R → S → ℕ
  pub created_at : R → S → ℕ
  -- Find and First under a condition; First refuses where there is no row
  pub find : (R → Bool) → S → Result String (List R)
  pub find_lem : (p : R → Bool) (s : S) {l : List R} → find p s ≡ ok l → l ≡ filter p (rows s)
  pub first : (R → Bool) → S → Result String R
  pub first_lem : (p : R → Bool) (s : S) {r : R} → first p s ≡ ok r → Mem r (rows s) × (p r ≡ true)
  -- Find after Order("created_at desc")
  pub newest : S → Result String (List R)
  pub create : R → S → Result String (R × S)
  pub create_lem :
      (r : R) (s : S) {r' : R} {s' : S} → create r s ≡ ok (r', s') → rows s' ≡ rows s ++ r' ∷ []
  pub create_row :
      (r : R) (s : S) {r' : R} {s' : S} → create r s ≡ ok (r', s') → r' ≡ with_id (columns r').id r
  -- Unscoped().Delete under a condition
  pub delete : (R → Bool) → S → Result String S
  pub delete_lem :
      (p : R → Bool) (s : S) {s' : S}
      → delete p s ≡ ok s'
      → rows s' ≡ filter (λ r. not (p r)) (rows s)
  -- Update, Updates or a change of an association, on the model of a row
  pub update : R → (R → R) → S → Result String S
  pub update_lem :
      (r : R) (f : R → R) (s : S) {s' : S}
      → update r f s ≡ ok s'
      → rows s' ≡ map (λ x. if eqb (columns x).id (columns r).id then f x else x) (rows s)

pub record Setting : Type 0 where
  pub id : ℕ
  pub name : String
  pub value : String

pub record Backup : Type 0 where
  pub ssh_keys : List SshKey
  pub hosts : List Host
  pub user_keys : List UserKey
  pub users : List User
  pub user_groups : List UserGroup
  pub host_groups : List HostGroup
  pub acls : List Acl
  pub settings : List Setting
  pub events : List Event
  pub sessions : List Session
  pub date : ℕ

-- status in (?)
abbrev pub in_states : List String → Session → Bool
in_states status x = any (λ t. x.status == t) status

pub record Gorm (S : Type 0) : Type 0 where
  -- how the database compares a text with a number
  pub same : String → ℕ → Bool
  pub acls : Table S Acl
  pub hosts : Table S Host
  pub host_groups : Table S HostGroup
  pub user_groups : Table S UserGroup
  pub users : Table S User
  pub user_keys : Table S UserKey
  pub ssh_keys : Table S SshKey
  pub user_roles : Table S UserRole
  pub sessions : Table S Session
  pub events : Table S Event
  -- Where("name = ?", n).Find into a zero host, and Association of a name with Find
  pub find_host : String → S → Host
  pub association : String → Host → S → Result String Host
  -- Find of the sessions with one of the states, newest first, with Limit and Offset. How many rows
  -- a page has is settled; which rows of the same age it has is not.
  pub session_page : List String → ℕ → ℕ → S → Result String (List Session)
  pub session_page_lem :
      (status : List String) (limit offset : ℕ) (s : S) {l : List Session}
      → session_page status limit offset s ≡ ok l
      → length l ≡ length (take limit (drop offset (filter (in_states status) (sessions.rows s))))
  -- DELETE FROM, by the name of the table, and FirstOrCreate of a row of a backup
  pub clear : String → S → Result String S
  pub restore_host : Host → S → Result String S
  pub restore_user : User → S → Result String S
  pub restore_acl : Acl → S → Result String S
  pub restore_host_group : HostGroup → S → Result String S
  pub restore_user_group : UserGroup → S → Result String S
  pub restore_ssh_key : SshKey → S → Result String S
  pub restore_user_key : UserKey → S → Result String S
  pub restore_setting : Setting → S → Result String S
  pub restore_session : Session → S → Result String S
  pub restore_event : Event → S → Result String S
  pub settings : S → Result String (List Setting)
  -- Commit of a transaction that has reached the given state
  pub commit : S → Result String S
  pub commit_lem : (t : S) {s : S} → commit t ≡ ok s → s ≡ t

-- the rows that a condition selects
abbrev pub selected : {S R : Type 0} → Gorm S → Table S R → Where → R → Bool
selected g t w r = holds g.same w (t.columns r)

-- HostByName
unfoldable pub named_host : {S : Type 0} → Gorm S → String → S → Option Host
named_host g name s = let host = g.find_host name s in if host.name == "" then none else some host
