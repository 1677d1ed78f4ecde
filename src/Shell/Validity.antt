-- ===== src/Shell/Validity.antt =====
-- Which ACLs the shell stores.
use sshportal.Base.{
  ℕ, ◌≡◌, refl, ap, ◌∙◌, Bool, true, not, ◌&&◌, ◌||◌, Option, List, [], ◌∷◌, ◌++◌, map, filter,
  length, eqb, ◌==◌, inl, inr, arith, Bool-cases, Result-cases, ok,
}
use sshportal.Models.{Acl, UserGroup, HostGroup, User, action_allow, action_deny}
use sshportal.Lookup.{acls_by_identifiers, user_groups_by_identifiers, host_groups_by_identifiers}
use sshportal.Shell.Store.{Gorm, selected}
use sshportal.Shell.Actions.{Context, Env}
use sshportal.Shell.Fields.{new_acl, parse_optional_time}
use sshportal.Shell.Acls.{acl_create, acl_rm}

-- an ACL that decides something: it allows or denies, for a user group, and for a host group or a
-- pattern
abbrev pub is_well_formed : Acl → Bool
is_well_formed a =
    (a.action == action_allow || a.action == action_deny)
    && not (eqb (length a.user_groups) 0)
    && not (eqb (length a.host_groups) 0 && a.host_pattern == "")

abbrev pub all : {A : Type 0} → (A → Bool) → List A → Bool
all p [] = true
all p (x ∷ l) = p x && all p l

module _ {A : Type 0} (p : A → Bool) where
  all-snoc : (l : List A) (x : A) → all p l ≡ true → p x ≡ true → all p (l ++ x ∷ []) ≡ true
  all-snoc [] x h k = ground arith
  all-snoc (y ∷ l) x h k = ground (arith, all-snoc l x)

  all-filter : (q : A → Bool) (l : List A) → all p l ≡ true → all p (filter q l) ≡ true
  unfolding filter
  all-filter q [] h = refl
  all-filter q (y ∷ l) h = ground (arith, all-filter q l)

length-map : {A B : Type 0} (f : A → B) (l : List A) → length (map f l) ≡ length l
length-map f [] = refl
length-map f (x ∷ l) = omega (arith, length-map f l)

abbrev pub Valid : {S : Type 0} → Gorm S → S → Type 0
Valid g s = all is_well_formed (g.acls.rows s) ≡ true

module _ {S : Type 0} (g : Gorm S) (env : Env) (myself : User) (c : Context) (s : S) where
  row_of : Option ℕ → Option ℕ → List UserGroup → List HostGroup → Acl
  unfolding new_acl
  row_of i e us hs = record (new_acl c i e) {
    user_groups = map (λ (u : UserGroup). u.id) us;
    host_groups = map (λ (h : HostGroup). h.id) hs;
  }

  abbrev group_test : List UserGroup → List HostGroup → Bool
  group_test us hs =
      (c.string "action" == action_allow || c.string "action" == action_deny)
      && not (eqb (length us) 0)
      && not (eqb (length hs) 0 && c.string "pattern" == "")

  tested :
      (i e : Option ℕ) (us : List UserGroup) (hs : List HostGroup)
      → is_well_formed (row_of i e us hs) ≡ group_test us hs
  unfolding row_of
  tested i e us hs =
      rw (length-map (λ (u : UserGroup). u.id) us, length-map (λ (h : HostGroup). h.id) hs) refl

  module _
      (keeps : (n : ℕ) (a : Acl) → is_well_formed (g.acls.with_id n a) ≡ is_well_formed a) where
    after_create :
        (a a' : Acl) (s' : S)
        → g.acls.create a s ≡ ok (a', s')
        → is_well_formed a ≡ true
        → Valid g s
        → Valid g s'
    after_create a a' s' k w v =
        let row = g.acls.create_row a s k in
        let passes : is_well_formed a' ≡ true =
          ap is_well_formed row ∙ keeps (g.acls.columns a').id a ∙ w in
        ap (all is_well_formed) (g.acls.create_lem a s k)
        ∙ all-snoc is_well_formed (g.acls.rows s) a' v passes

    stored :
        (i e : Option ℕ) (us : List UserGroup) (hs : List HostGroup)
        → Valid g s
        → parse_optional_time env.parse_time (c.string "inception") ≡ ok i
        → parse_optional_time env.parse_time (c.string "expiration") ≡ ok e
        → g.user_groups.find
            (selected g g.user_groups (user_groups_by_identifiers (c.slice "usergroup")))
            s
          ≡ ok us
        → g.host_groups.find
            (selected g g.host_groups (host_groups_by_identifiers (c.slice "hostgroup")))
            s
          ≡ ok hs
        → Valid g (acl_create g env myself c s).1
    unfolding acl_create row_of
    stored i e us hs v qi qe qu qh = elim (Result-cases (g.acls.create (row_of i e us hs) s)) [
      | inl (x, k) ↦ ground arith
      | inr ((a', s'), k) ↦ elim (Bool-cases (is_well_formed (row_of i e us hs))) [
        | inl w ↦ let v' = after_create (row_of i e us hs) a' s' k w v in ground arith
        | inr w ↦ let t = tested i e us hs in ground arith
      ]
    ]

    create-Valid : Valid g s → Valid g (acl_create g env myself c s).1
    unfolding acl_create
    create-Valid v =
        elim (Result-cases (parse_optional_time env.parse_time (c.string "inception"))) [
          | inl (x, q) ↦ ground arith
          | inr (i, qi) ↦
              elim (Result-cases (parse_optional_time env.parse_time (c.string "expiration"))) [
                | inl (x, q) ↦ ground arith
                | inr (e, qe) ↦ groups i e qi qe
              ]
        ]
      where
        groups :
            (i e : Option ℕ)
            → parse_optional_time env.parse_time (c.string "inception") ≡ ok i
            → parse_optional_time env.parse_time (c.string "expiration") ≡ ok e
            → Valid g (acl_create g env myself c s).1
        groups i e qi qe =
            elim (Result-cases (
              g.user_groups.find
                (selected g g.user_groups (user_groups_by_identifiers (c.slice "usergroup"))) s)) [
                  | inl (x, q) ↦ ground arith
                  | inr (us, qu) ↦
                      elim (Result-cases (
                        g.host_groups.find
                          (selected g g.host_groups
                            (host_groups_by_identifiers (c.slice "hostgroup")))
                          s)) [
                            | inl (x, q) ↦ ground arith
                            | inr (hs, qh) ↦ stored i e us hs v qi qe qu qh
                          ]
                ]

    rm-Valid : Valid g s → Valid g (acl_rm g env myself c s).1
    unfolding acl_rm
    rm-Valid v =
        elim (Result-cases (g.acls.delete (selected g g.acls (acls_by_identifiers c.args)) s)) [
          | inl (x, q) ↦ ground arith
          | inr (s', q) ↦
              let v' : Valid g s' =
                ap (all is_well_formed)
                  (g.acls.delete_lem (selected g g.acls (acls_by_identifiers c.args)) s q)
                ∙ all-filter is_well_formed
                    (λ r. not (selected g g.acls (acls_by_identifiers c.args) r)) (g.acls.rows s)
                    v in
              ground arith
        ]

    -- If every stored ACL allows or denies, for a user group, and for a host group or a host
    -- pattern, then this is still so after `acl create` and after `acl rm`, whatever the flags are,
    -- whoever runs them and however they end. The id that the database gives a row is taken to
    -- change nothing of it.
    pub acls-Valid :
        Valid g s → Valid g (acl_create g env myself c s).1 × Valid g (acl_rm g env myself c s).1
    acls-Valid v = (create-Valid v, rm-Valid v)
