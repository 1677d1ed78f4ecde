-- ===== src/Access/Decision.antt =====
-- What checkACLs decides, against a description that knows nothing of its loops and its map.
use mathlib.Core.Bool.{Bool-set}
use mathlib.Core.Logic.{∥∥₁_elim, ∥∥₁_prop}
use mathlib.Core.HLevel.{×_prop}
use mathlib.Core.List.{mem-cons_self, not-mem-nil, Mem-prop}
use mathlib.Core.List.Perm
use native.Mathlib.Nat.{le_refl}
use native.Mathlib.Bridge.{le_prop}
use mathlib.Core.Path.{subst}
use sshportal.Base.{
  ℕ, ◌≤◌, String, ◌≡◌, refl, sym, ◌≢◌, ◌↔◌, true, List, [], ◌∷◌, Mem, All, All-mem,
}
use sshportal.Models.{Acl, UserGroup, HostGroup, User, Host, action_deny}
use sshportal.Access.Acls.{in_force, acl_map, Runtime, IsSorted, select_action, first_action}
use sshportal.Access.Entries.{All-scan_user_groups}
use sshportal.Access.Coverage.{enters-user_groups}

-- The ACL is in force, a group of the user has it, and a group of the host has one of its id.
abbrev pub Shares : ℕ → User → Host → Acl → Type 0
Shares now user host a =
    (in_force now a ≡ true)
    × ∥ (
        (ug : UserGroup) × (hg : HostGroup) × (ha : Acl) × Mem ug user.groups
        × Mem a ug.acls
        × Mem hg host.groups
        × Mem ha hg.acls
        × (a.id ≡ ha.id)) ∥₁

-- ACLs that the user's groups name by one id are one row.
abbrev pub IsCoherent : User → Type 0
IsCoherent user =
    (ug vg : UserGroup) (a b : Acl)
    → Mem ug user.groups
    → Mem a ug.acls
    → Mem vg user.groups
    → Mem b vg.acls
    → b.id ≡ a.id
    → b ≡ a

-- An action that the ACLs justify: `deny` for want of any, else that of one of the lightest.
pub data Decides (now : ℕ) (user : User) (host : Host) (action : String) : Type 0 where
  refused :
      ((a : Acl) → ¬ Shares now user host a) → action ≡ action_deny → Decides now user host action
  granted :
      (a : Acl)
      → Shares now user host a
      → ((b : Acl) → Shares now user host b → a.weight ≤ b.weight)
      → action ≡ a.action
      → Decides now user host action

module _ (now : ℕ) (user : User) (host : Host) where
  Shares-prop : (a : Acl) → IsProp (Shares now user host a)
  Shares-prop a = ×_prop (Bool-set _ _) ∥∥₁_prop

  acl_map-Shares : All (Shares now user host) (acl_map now user host)
  unfolding acl_map
  acl_map-Shares =
      All-scan_user_groups (Shares now user host) now user.groups host.groups []
        (λ ug ua hg ha i j k l e live. (live, ∣ (ug, hg, ha, i, j, k, l, e) ∣₁)) tt

  module _ (one_row : IsCoherent user) where
    mem-acl_map : (a : Acl) → Shares now user host a → Mem a (acl_map now user host)
    unfolding acl_map
    mem-acl_map a (live, both) = ∥∥₁_elim both Mem-prop (λ (ug, hg, ha, i, j, k, l, e).
        enters-user_groups a now live ug hg ha user.groups host.groups [] j k l e
          (λ vg b p q. one_row ug vg a b i j p q) i)

    -- The entries of `aclMap` are the ACLs that user and host share.
    pub mem-acl_map_iff : (a : Acl) → Mem a (acl_map now user host) ↔ Shares now user host a
    mem-acl_map_iff a = (All-mem (Shares now user host) Shares-prop _ acl_map-Shares, mem-acl_map a)

    arranged_iff :
        (rt : Runtime) (a : Acl)
        → Mem a (rt.sort (rt.range (acl_map now user host))) ↔ Shares now user host a
    arranged_iff rt a = (
      λ k.
          (mem-acl_map_iff a).0
            ((Perm.mem_iff (rt.range-perm _)).0 ((Perm.mem_iff (rt.sort-perm _)).0 k)),
      λ h.
          (Perm.mem_iff (rt.sort-perm _)).1
            ((Perm.mem_iff (rt.range-perm _)).1 ((mem-acl_map_iff a).1 h)),
    )

    first_action-Decides :
        (l : List Acl)
        → l ≢ []
        → IsSorted l
        → ((a : Acl) → Mem a l ↔ Shares now user host a)
        → Decides now user host (first_action l)
    unfolding first_action
    first_action-Decides [] full sorted same = absurd (full refl)
    first_action-Decides (a ∷ l) full sorted same =
        granted a ((same a).0 mem-cons_self)
          (λ b h.
            All-mem (λ c. a.weight ≤ c.weight) (λ c. le_prop) (a ∷ l) (le_refl a.weight, sorted.0)
              ((same b).1 h))
          refl

    arranged-ne-nil : (rt : Runtime) (b : Acl) (m : List Acl) → rt.sort (rt.range (b ∷ m)) ≢ []
    arranged-ne-nil rt b m e = not-mem-nil (
        subst (Mem b) e
          ((Perm.mem_iff (rt.sort-perm _)).1 ((Perm.mem_iff (rt.range-perm _)).1 mem-cons_self)))

    select-Decides :
        (rt : Runtime) (m : List Acl)
        → m ≡ acl_map now user host
        → Decides now user host (select_action rt m)
    unfolding select_action
    select-Decides rt [] e =
        refused (λ a h. not-mem-nil (subst (Mem a) (sym e) ((mem-acl_map_iff a).1 h))) refl
    select-Decides rt (b ∷ m) e =
        first_action-Decides _ (arranged-ne-nil rt b m) (rt.sort-IsSorted _) (
          subst (λ l. (a : Acl) → Mem a (rt.sort (rt.range l)) ↔ Shares now user host a) (sym e)
            (arranged_iff rt))

    pub select_action-Decides :
        (rt : Runtime) → Decides now user host (select_action rt (acl_map now user host))
    select_action-Decides rt = select-Decides rt _ refl
