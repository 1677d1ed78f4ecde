-- ===== src/Access/Entries.antt =====
-- The nested loops of checkACLs enter into `aclMap` only what they meet.
use mathlib.Core.List.{mem-cons_self, mem-cons_of_mem}
use sshportal.Base.{
  ℕ, ◌≡◌, true, ◌&&◌, inl, inr, List, [], ◌∷◌, Mem, eqb, eqb_iff, Bool-cases, if◌then◌else◌, All,
  &&_iff,
}
use sshportal.Models.{Acl, UserGroup, HostGroup}
use sshportal.Access.Acls.{
  in_force, put, scan_host_acls, scan_host_groups, scan_user_acls, scan_user_groups,
}

-- A property of the ACLs that the loops meet holds of every entry.
module _ (P : Acl → Type 0) where
  All-put : (a : Acl) (m : List Acl) → P a → All P m → All P (put a m)
  unfolding put
  All-put a [] p h = (p, tt)
  All-put a (b ∷ m) p h = elim (Bool-cases (eqb b.id a.id)) [
    | inl e ↦ rw e (p, h.1)
    | inr e ↦ rw e (h.0, All-put a m p h.1)
  ]

  All-scan_host_acls :
      (now : ℕ) (ua : Acl) (has m : List Acl)
      → ((ha : Acl) → Mem ha has → ua.id ≡ ha.id → in_force now ua ≡ true → P ua)
      → All P m
      → All P (scan_host_acls now ua has m)
  unfolding scan_host_acls
  All-scan_host_acls now ua [] m p h = h
  All-scan_host_acls now ua (ha ∷ has) m p h =
      All-scan_host_acls now ua has _ (λ b k. p b (mem-cons_of_mem ha k)) entered
    where
      entered : All P (if eqb ua.id ha.id && in_force now ua then put ua m else m)
      entered = elim (Bool-cases (eqb ua.id ha.id && in_force now ua)) [
        | inl e ↦
            let (same, live) = (&&_iff (eqb ua.id ha.id) (in_force now ua)).0 e in
            rw e (All-put ua m (p ha mem-cons_self ((eqb_iff ua.id ha.id).0 same) live) h)
        | inr e ↦ rw e h
      ]

  All-scan_host_groups :
      (now : ℕ) (ua : Acl) (hgs : List HostGroup) (m : List Acl)
      → ((hg : HostGroup) (ha : Acl)
          → Mem hg hgs
          → Mem ha hg.acls
          → ua.id ≡ ha.id
          → in_force now ua ≡ true
          → P ua)
      → All P m
      → All P (scan_host_groups now ua hgs m)
  unfolding scan_host_groups
  All-scan_host_groups now ua [] m p h = h
  All-scan_host_groups now ua (hg ∷ hgs) m p h =
      All-scan_host_groups now ua hgs _ (λ g a k. p g a (mem-cons_of_mem hg k))
        (All-scan_host_acls now ua hg.acls m (λ a. p hg a mem-cons_self) h)

  All-scan_user_acls :
      (now : ℕ) (uas : List Acl) (hgs : List HostGroup) (m : List Acl)
      → ((ua : Acl) (hg : HostGroup) (ha : Acl)
          → Mem ua uas
          → Mem hg hgs
          → Mem ha hg.acls
          → ua.id ≡ ha.id
          → in_force now ua ≡ true
          → P ua)
      → All P m
      → All P (scan_user_acls now uas hgs m)
  unfolding scan_user_acls
  All-scan_user_acls now [] hgs m p h = h
  All-scan_user_acls now (ua ∷ uas) hgs m p h =
      All-scan_user_acls now uas hgs _ (λ u g a k. p u g a (mem-cons_of_mem ua k))
        (All-scan_host_groups now ua hgs m (λ g a. p ua g a mem-cons_self) h)

  pub All-scan_user_groups :
      (now : ℕ) (ugs : List UserGroup) (hgs : List HostGroup) (m : List Acl)
      → ((ug : UserGroup) (ua : Acl) (hg : HostGroup) (ha : Acl)
          → Mem ug ugs
          → Mem ua ug.acls
          → Mem hg hgs
          → Mem ha hg.acls
          → ua.id ≡ ha.id
          → in_force now ua ≡ true
          → P ua)
      → All P m
      → All P (scan_user_groups now ugs hgs m)
  unfolding scan_user_groups
  All-scan_user_groups now [] hgs m p h = h
  All-scan_user_groups now (ug ∷ ugs) hgs m p h =
      All-scan_user_groups now ugs hgs _ (λ v u g a k. p v u g a (mem-cons_of_mem ug k))
        (All-scan_user_acls now ug.acls hgs m (λ u g a. p ug u g a mem-cons_self) h)
