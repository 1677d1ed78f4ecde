-- ===== src/Access/Coverage.antt =====
-- The nested loops of checkACLs miss no ACL that both sides have.
use mathlib.Core.Path.{subst}
use mathlib.Core.Logic.Or
use mathlib.Core.List.{not-mem-nil, mem-cons, mem-cons_self, mem-cons_of_mem, Mem-prop}
use sshportal.Base.{
  ℕ, ◌≡◌, refl, sym, ap, ◌∙◌, true, ◌&&◌, inl, inr, List, [], ◌∷◌, Mem, eqb, eqb_iff, Bool-cases,
  if◌then◌else◌, &&_iff,
}
use sshportal.Models.{Acl, UserGroup, HostGroup}
use sshportal.Access.Acls.{
  in_force, put, scan_host_acls, scan_host_groups, scan_user_acls, scan_user_groups,
}

-- `a` does not overwrite `c`
abbrev pub Spares : Acl → Acl → Type 0
Spares c a = a.id ≡ c.id → a ≡ c

-- An entry stays, where no other ACL of its id is met.
module _ (c : Acl) where
  mem-put_self : (m : List Acl) → Mem c (put c m)
  unfolding put
  mem-put_self [] = mem-cons_self
  mem-put_self (b ∷ m) = elim (Bool-cases (eqb b.id c.id)) [
    | inl e ↦ rw e mem-cons_self
    | inr e ↦ rw e (mem-cons_of_mem b (mem-put_self m))
  ]

  mem-put : (a : Acl) (m : List Acl) → Spares c a → Mem c m → Mem c (put a m)
  unfolding put
  mem-put a [] s k = absurd (not-mem-nil k)
  mem-put a (b ∷ m) s k = elim (Bool-cases (eqb b.id a.id)) [
    | inl e ↦ rw e (
        Or.elim Mem-prop (mem-cons.0 k)
          (λ q.
            mem-cons.1
              (Or.inl (sym (s (sym ((eqb_iff b.id a.id).0 e) ∙ ap (λ (x : Acl). x.id) (sym q))))))
          (mem-cons_of_mem a))
    | inr e ↦ rw e (
        Or.elim Mem-prop (mem-cons.0 k) (λ q. mem-cons.1 (Or.inl q))
          (λ r. mem-cons_of_mem b (mem-put a m s r)))
  ]

  mem-scan_host_acls :
      (now : ℕ) (ua : Acl) (has m : List Acl)
      → Spares c ua
      → Mem c m
      → Mem c (scan_host_acls now ua has m)
  unfolding scan_host_acls
  mem-scan_host_acls now ua [] m s k = k
  mem-scan_host_acls now ua (ha ∷ has) m s k = mem-scan_host_acls now ua has _ s kept
    where
      kept : Mem c (if eqb ua.id ha.id && in_force now ua then put ua m else m)
      kept = elim (Bool-cases (eqb ua.id ha.id && in_force now ua)) [
        | inl e ↦ rw e (mem-put ua m s k)
        | inr e ↦ rw e k
      ]

  mem-scan_host_groups :
      (now : ℕ) (ua : Acl) (hgs : List HostGroup) (m : List Acl)
      → Spares c ua
      → Mem c m
      → Mem c (scan_host_groups now ua hgs m)
  unfolding scan_host_groups
  mem-scan_host_groups now ua [] m s k = k
  mem-scan_host_groups now ua (hg ∷ hgs) m s k =
      mem-scan_host_groups now ua hgs _ s (mem-scan_host_acls now ua hg.acls m s k)

  mem-scan_user_acls :
      (now : ℕ) (uas : List Acl) (hgs : List HostGroup) (m : List Acl)
      → ((ua : Acl) → Mem ua uas → Spares c ua)
      → Mem c m
      → Mem c (scan_user_acls now uas hgs m)
  unfolding scan_user_acls
  mem-scan_user_acls now [] hgs m s k = k
  mem-scan_user_acls now (ua ∷ uas) hgs m s k =
      mem-scan_user_acls now uas hgs _ (λ u r. s u (mem-cons_of_mem ua r))
        (mem-scan_host_groups now ua hgs m (s ua mem-cons_self) k)

  mem-scan_user_groups :
      (now : ℕ) (ugs : List UserGroup) (hgs : List HostGroup) (m : List Acl)
      → ((ug : UserGroup) (ua : Acl) → Mem ug ugs → Mem ua ug.acls → Spares c ua)
      → Mem c m
      → Mem c (scan_user_groups now ugs hgs m)
  unfolding scan_user_groups
  mem-scan_user_groups now [] hgs m s k = k
  mem-scan_user_groups now (ug ∷ ugs) hgs m s k =
      mem-scan_user_groups now ugs hgs _ (λ v u r. s v u (mem-cons_of_mem ug r))
        (mem-scan_user_acls now ug.acls hgs m (λ u. s ug u mem-cons_self) k)

-- An ACL in force that a host group also has is entered.
module _ (c : Acl) (now : ℕ) (live : in_force now c ≡ true) where
  enters-host_acls :
      (ha : Acl) (has m : List Acl) → c.id ≡ ha.id → Mem ha has → Mem c (scan_host_acls now c has m)
  unfolding scan_host_acls
  enters-host_acls ha [] m e k = absurd (not-mem-nil k)
  enters-host_acls ha (hb ∷ has) m e k =
      Or.elim Mem-prop (mem-cons.0 k)
        (λ q. rw (test q) (mem-scan_host_acls c now c has _ (λ _. refl) (mem-put_self c m)))
        (enters-host_acls ha has _ e)
    where
      test : ha ≡ hb → (eqb c.id hb.id && in_force now c) ≡ true
      test q = (&&_iff _ _).1 ((eqb_iff _ _).1 (e ∙ ap (λ (x : Acl). x.id) q), live)

  enters-host_groups :
      (hg : HostGroup) (ha : Acl) (hgs : List HostGroup) (m : List Acl)
      → Mem ha hg.acls
      → c.id ≡ ha.id
      → Mem hg hgs
      → Mem c (scan_host_groups now c hgs m)
  unfolding scan_host_groups
  enters-host_groups hg ha [] m r e k = absurd (not-mem-nil k)
  enters-host_groups hg ha (hh ∷ hgs) m r e k =
      Or.elim Mem-prop (mem-cons.0 k)
        (λ q.
          mem-scan_host_groups c now c hgs _ (λ _. refl)
            (enters-host_acls ha hh.acls m e (subst (λ (h : HostGroup). Mem ha h.acls) q r)))
        (enters-host_groups hg ha hgs _ r e)

  enters-user_acls :
      (hg : HostGroup) (ha : Acl) (uas : List Acl) (hgs : List HostGroup) (m : List Acl)
      → Mem hg hgs
      → Mem ha hg.acls
      → c.id ≡ ha.id
      → ((ua : Acl) → Mem ua uas → Spares c ua)
      → Mem c uas
      → Mem c (scan_user_acls now uas hgs m)
  unfolding scan_user_acls
  enters-user_acls hg ha [] hgs m l r e s k = absurd (not-mem-nil k)
  enters-user_acls hg ha (ua ∷ uas) hgs m l r e s k =
      Or.elim Mem-prop (mem-cons.0 k)
        (λ q. mem-scan_user_acls c now uas hgs _ rest (
          subst (λ (u : Acl). Mem c (scan_host_groups now u hgs m)) q
            (enters-host_groups hg ha hgs m r e l)))
        (enters-user_acls hg ha uas hgs _ l r e rest)
    where
      rest : (u : Acl) → Mem u uas → Spares c u
      rest u j = s u (mem-cons_of_mem ua j)

  pub enters-user_groups :
      (ug : UserGroup) (hg : HostGroup) (ha : Acl) (ugs : List UserGroup) (hgs : List HostGroup)
      (m : List Acl)
      → Mem c ug.acls
      → Mem hg hgs
      → Mem ha hg.acls
      → c.id ≡ ha.id
      → ((vg : UserGroup) (ua : Acl) → Mem vg ugs → Mem ua vg.acls → Spares c ua)
      → Mem ug ugs
      → Mem c (scan_user_groups now ugs hgs m)
  unfolding scan_user_groups
  enters-user_groups ug hg ha [] hgs m i l r e s k = absurd (not-mem-nil k)
  enters-user_groups ug hg ha (ugg ∷ ugs) hgs m i l r e s k =
      Or.elim Mem-prop (mem-cons.0 k)
        (λ q. mem-scan_user_groups c now ugs hgs _ rest (
          enters-user_acls hg ha ugg.acls hgs m l r e (λ u. s ugg u mem-cons_self)
            (subst (λ (g : UserGroup). Mem c g.acls) q i)))
        (enters-user_groups ug hg ha ugs hgs _ i l r e rest)
    where
      rest : (vg : UserGroup) (u : Acl) → Mem vg ugs → Mem u vg.acls → Spares c u
      rest vg u j = s vg u (mem-cons_of_mem ugg j)
