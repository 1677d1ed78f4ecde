-- ===== src/Shell/Toy.antt =====
-- A database of lists with the rules of the one that the shell uses, for the examples.
use mathlib.Core.Path.{subst}
use mathlib.Core.List.{mem-cons_self, mem-cons_of_mem}
use sshportal.Base.{
  ℕ, String, ◌≡◌, refl, sym, ap, ◌∙◌, inl, inr, Bool-cases, Bool, true, false, not, none, List, [],
  ◌∷◌, ◌++◌, map, filter, take, drop, length, any, eqb, ◌==◌, if◌then◌else◌, Mem, Result, ok, err,
  arith, ◌+◌,
}
use sshportal.Strconv.Printing.{decimal}
use sshportal.Models.{Acl, UserGroup, HostGroup, User, UserKey, UserRole, SshKey, Host, Session}
use sshportal.Lookup.{Columns, Event}
use sshportal.Shell.Store.{in_states, Table, Gorm}

pub record Db : Type 0 where
  pub acl_rows : List Acl
  pub host_rows : List Host
  pub host_group_rows : List HostGroup
  pub user_group_rows : List UserGroup
  pub user_rows : List User
  pub user_key_rows : List UserKey
  pub ssh_key_rows : List SshKey
  pub role_rows : List UserRole
  pub session_rows : List Session
  pub event_rows : List Event

abbrev pub ok-injective : {A : Type 0} {a b : A} → ◌≡◌ {A = Result String A} (ok a) (ok b) → a ≡ b
ok-injective h = cc

module _ {R : Type 0} where
  abbrev first_in : (R → Bool) → List R → Result String R
  first_in p [] = err "record not found"
  first_in p (x ∷ l) = if p x then ok x else first_in p l

  abbrev hit : (p : R → Bool) (x : R) (l : List R) → p x ≡ true → first_in p (x ∷ l) ≡ ok x
  hit p x l t = ground arith

  abbrev miss :
      (p : R → Bool) (x : R) (l : List R) → p x ≡ false → first_in p (x ∷ l) ≡ first_in p l
  miss p x l t = ground arith

  abbrev first_in_lem :
      (p : R → Bool) (l : List R) {r : R} → first_in p l ≡ ok r → Mem r l × (p r ≡ true)
  first_in_lem p [] {r} h = absurd cc
  first_in_lem p (x ∷ l) {r} h = elim (Bool-cases (p x)) [
    | inl t ↦
        let e : ok x ≡ ok r = sym (hit p x l t) ∙ h in
        let same : r ≡ x = sym (ok-injective e) in
        (subst (λ y. Mem y (x ∷ l)) (sym same) mem-cons_self, ap p same ∙ t)
    | inr t ↦
        let rest = first_in_lem p l (sym (miss p x l t) ∙ h) in (mem-cons_of_mem x rest.0, rest.1)
  ]

  -- where a row passes, First finds one
  pub first_in-finds :
      (p : R → Bool) (l : List R) → any p l ≡ true → (x : R) × (first_in p l ≡ ok x)
  unfolding any
  first_in-finds p [] h = absurd cc
  first_in-finds p (x ∷ l) h = elim (Bool-cases (p x)) [
    | inl t ↦ (x, hit p x l t)
    | inr t ↦ let (y, e) = first_in-finds p l (ground (arith)) in (y, miss p x l t ∙ e)
  ]

-- one table of it, by its rows, and how a row holds its id
abbrev table :
    {R : Type 0} (get : Db → List R) (put : List R → Db → Db) (columns : R → Columns)
    (with_id : ℕ → R → R)
    → ((l : List R) (s : Db) → get (put l s) ≡ l)
    → ((n : ℕ) (r : R) → (columns (with_id n r)).id ≡ n)
    → Table Db R
table get put columns with_id get-put id_of = record {
  rows = get;
  columns = columns;
  with_id = with_id;
  updated_at = λ _ _. 0;
  created_at = λ _ _. 0;
  find = λ p s. ok (filter p (get s));
  find_lem = λ p s {l} h. sym (ok-injective h);
  first = λ p s. first_in p (get s);
  first_lem = λ p s {r} h. first_in_lem p (get s) h;
  newest = λ s. ok (get s);
  create = λ r s. let row = with_id (length (get s) + 1) r in ok (row, put (get s ++ row ∷ []) s);
  create_lem = λ r s {r'} {s'} h.
      let q = ok-injective h in
      ap get (sym (ap (λ x. x.1) q))
      ∙ get-put (get s ++ with_id (length (get s) + 1) r ∷ []) s
      ∙ ap (λ x. get s ++ x.0 ∷ []) q;
  create_row = λ r s {r'} {s'} h.
      let q = ap (λ x. x.0) (ok-injective h) in
      sym q
      ∙ ap (λ n. with_id n r) (sym (id_of (length (get s) + 1) r) ∙ ap (λ x. (columns x).id) q);
  delete = λ p s. ok (put (filter (λ r. not (p r)) (get s)) s);
  delete_lem =
      λ p s {s'} h. ap get (sym (ok-injective h)) ∙ get-put (filter (λ r. not (p r)) (get s)) s;
  update =
      λ r f s. ok (put (map (λ x. if eqb (columns x).id (columns r).id then f x else x) (get s)) s);
  update_lem = λ r f s {s'} h.
      ap get (sym (ok-injective h))
      ∙ get-put (map (λ x. if eqb (columns x).id (columns r).id then f x else x) (get s)) s;
}

abbrev acls : Table Db Acl
acls =
    table (λ s. s.acl_rows) (λ l s. record s { acl_rows = l })
      (λ (r : Acl). record { id = r.id; name = ""; email = ""; user_id = 0 })
      (λ n (r : Acl). record r { id = n }) (λ l s. refl) (λ n r. refl)

abbrev hosts : Table Db Host
hosts =
    table (λ s. s.host_rows) (λ l s. record s { host_rows = l })
      (λ (r : Host). record { id = r.id; name = r.name; email = ""; user_id = 0 })
      (λ n (r : Host). record r { id = n }) (λ l s. refl) (λ n r. refl)

abbrev host_groups : Table Db HostGroup
host_groups =
    table (λ s. s.host_group_rows) (λ l s. record s { host_group_rows = l })
      (λ (r : HostGroup). record { id = r.id; name = r.name; email = ""; user_id = 0 })
      (λ n (r : HostGroup). record r { id = n }) (λ l s. refl) (λ n r. refl)

abbrev user_groups : Table Db UserGroup
user_groups =
    table (λ s. s.user_group_rows) (λ l s. record s { user_group_rows = l })
      (λ (r : UserGroup). record { id = r.id; name = r.name; email = ""; user_id = 0 })
      (λ n (r : UserGroup). record r { id = n }) (λ l s. refl) (λ n r. refl)

abbrev users : Table Db User
users =
    table (λ s. s.user_rows) (λ l s. record s { user_rows = l })
      (λ (r : User). record { id = r.id; name = r.name; email = r.email; user_id = 0 })
      (λ n (r : User). record r { id = n }) (λ l s. refl) (λ n r. refl)

abbrev user_keys : Table Db UserKey
user_keys =
    table (λ s. s.user_key_rows) (λ l s. record s { user_key_rows = l })
      (λ (r : UserKey). record { id = r.id; name = ""; email = ""; user_id = r.user_id })
      (λ n (r : UserKey). record r { id = n }) (λ l s. refl) (λ n r. refl)

abbrev ssh_keys : Table Db SshKey
ssh_keys =
    table (λ s. s.ssh_key_rows) (λ l s. record s { ssh_key_rows = l })
      (λ (r : SshKey). record { id = r.id; name = r.name; email = ""; user_id = 0 })
      (λ n (r : SshKey). record r { id = n }) (λ l s. refl) (λ n r. refl)

abbrev user_roles : Table Db UserRole
user_roles =
    table (λ s. s.role_rows) (λ l s. record s { role_rows = l })
      (λ (r : UserRole). record { id = r.id; name = r.name; email = ""; user_id = 0 })
      (λ n (r : UserRole). record r { id = n }) (λ l s. refl) (λ n r. refl)

abbrev sessions : Table Db Session
sessions =
    table (λ s. s.session_rows) (λ l s. record s { session_rows = l })
      (λ (r : Session). record { id = r.id; name = ""; email = ""; user_id = r.user_id })
      (λ n (r : Session). record r { id = n }) (λ l s. refl) (λ n r. refl)

abbrev events : Table Db Event
events =
    table (λ s. s.event_rows) (λ l s. record s { event_rows = l })
      (λ (r : Event). record { id = r.id; name = ""; email = ""; user_id = 0 })
      (λ n (r : Event). record r { id = n }) (λ l s. refl) (λ n r. refl)

abbrev pub no_host : Host
no_host = record {
  id = 0;
  name = "";
  addr = "";
  user = "";
  password = "";
  url = "";
  ssh_key = none;
  ssh_key_id = 0;
  host_key = [];
  groups = [];
  comment = "";
  logging = "";
  hop_id = 0;
}

abbrev first_host : List Host → Host
first_host [] = no_host
first_host (h ∷ _) = h

-- a backup is not restored into it
unfoldable pub db : Gorm Db
db = record {
  same = λ t n. t == decimal n;
  acls = acls;
  hosts = hosts;
  host_groups = host_groups;
  user_groups = user_groups;
  users = users;
  user_keys = user_keys;
  ssh_keys = ssh_keys;
  user_roles = user_roles;
  sessions = sessions;
  events = events;
  find_host = λ name s. first_host (filter (λ (h : Host). h.name == name) s.host_rows);
  association = λ name h s. err "unsupported relations";
  session_page = λ status limit offset s.
      ok (take limit (drop offset (filter (in_states status) s.session_rows)));
  session_page_lem = λ status limit offset s {l} h. ap length (sym (ok-injective h));
  clear = λ _ s. err "refused";
  restore_host = λ _ s. err "refused";
  restore_user = λ _ s. err "refused";
  restore_acl = λ _ s. err "refused";
  restore_host_group = λ _ s. err "refused";
  restore_user_group = λ _ s. err "refused";
  restore_ssh_key = λ _ s. err "refused";
  restore_user_key = λ _ s. err "refused";
  restore_setting = λ _ s. err "refused";
  restore_session = λ _ s. err "refused";
  restore_event = λ _ s. err "refused";
  settings = λ _. ok [];
  commit = λ t. ok t;
  commit_lem = λ t {s} h. sym (ok-injective h);
}
