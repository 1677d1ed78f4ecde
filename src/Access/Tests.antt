-- ===== src/Access/Tests.antt =====
-- Tests and examples of checkACLs.
use mathlib.Core.Logic.{∥∥₁_elim}
use mathlib.Core.HLevel.{Π_prop}
use text.Mathlib.TextEquality.{IsScalar-prop}
use native.Mathlib.Nat.{ℕ_set}
use sshportal.Base.{
  ℕ, String, ◌≡◌, ◌⊎◌, refl, sym, ap, ◌∙◌, false, none, some, List, [], ◌∷◌, Mem, All-mem, ok, err,
}
use sshportal.Models.{Acl, UserGroup, action_allow, action_deny}
use sshportal.Access.Acls.{
  in_force, acl_map, select_action, first_action, put, scan_user_groups, scan_user_acls,
  scan_host_groups, scan_host_acls,
}
use sshportal.Access.Hook.{HookEnv, check_acls, check_hook}
use sshportal.Access.Decision.{Shares, IsCoherent, Decides}
use sshportal.Access.Verdict.{Answers, Verdict, check_hook-Verdict}
use sshportal.Access.Sorting.{insertion_sort, in_order}
use sshportal.Access.Policy.{check_acls-Decides}
use sshportal.Access.Samples.{member, target}

abbrev acl : ℕ → String → Acl
acl id action = record {
  id = id;
  host_groups = 1 ∷ [];
  user_groups = 1 ∷ [];
  host_pattern = "";
  action = action;
  weight = 0;
  comment = "";
  inception = none;
  expiration = none;
}

abbrev allowed : List Acl
allowed = acl 1 action_allow ∷ []

tests : Unit {0}
unfolding check_acls check_hook select_action acl_map scan_user_groups scan_user_acls
    scan_host_groups scan_host_acls put in_force first_action insertion_sort
tests = tt

-- a hook that prints the action it is given
abbrev echo : HookEnv
echo = record {
  marshal_user = λ _. ok "{}";
  marshal_host = λ _. ok "{}";
  execute = λ cmd args. record {
    output = elim args [ [] ↦ err tt | a ∷ _ ↦ ok a ];
    deadline_exceeded = false;
  };
}

Acl-set : IsSet Acl
Acl-set = hlevel (IsScalar-prop, ℕ_set)

allowed_only :
    (ug : UserGroup)
    → Mem ug (member allowed).groups
    → (a : Acl) → Mem a ug.acls
    → a ≡ acl 1 action_allow
allowed_only ug i =
    All-mem (λ g. (a : Acl) → Mem a g.acls → a ≡ acl 1 action_allow)
      (λ g. Π_prop (λ a. Π_prop (λ _. Acl-set a _))) (member allowed).groups
      ((λ a j. All-mem (λ b. b ≡ acl 1 action_allow) (λ b. Acl-set b _) allowed (refl, tt) j), tt) i

coherent : IsCoherent (member allowed)
coherent ug vg a b i j k l e = allowed_only vg k b l ∙ sym (allowed_only ug i a j)

shared_actions_agree :
    (a b : Acl)
    → Shares 7 (member allowed) (target allowed) a
    → Shares 7 (member allowed) (target allowed) b
    → a.weight ≡ b.weight
    → a.action ≡ b.action
shared_actions_agree a b h k e = ap (λ (x : Acl). x.action) (only a h ∙ sym (only b k))
  where
    only : (x : Acl) → Shares 7 (member allowed) (target allowed) x → x ≡ acl 1 action_allow
    only x (_, s) = ∥∥₁_elim s (Acl-set x _) (λ (ug, hg, ha, i, j, k, l, e). allowed_only ug i x j)

check_acls-Decides_example :
    Decides 7
      (member allowed)
      (target allowed)
      (check_acls in_order echo 7 (member allowed) (target allowed) "hook")
    ⊎ Answers echo "hook"
        (select_action in_order (acl_map 7 (member allowed) (target allowed)))
        (member allowed)
        (target allowed)
        (check_acls in_order echo 7 (member allowed) (target allowed) "hook")
check_acls-Decides_example =
    check_acls-Decides 7 (member allowed) (target allowed) coherent in_order echo "hook"

check_hook-Verdict_example :
    Verdict echo "hook" action_deny
      (member [])
      (target [])
      (check_hook echo "hook" action_deny (member []) (target []))
check_hook-Verdict_example = check_hook-Verdict echo "hook" action_deny (member []) (target [])

-- An ACL that has expired is no longer shared.
expired_acl :
    check_acls in_order echo 7
      (member (record (acl 1 action_allow) { expiration = some 6 } ∷ []))
      (target (record (acl 1 action_allow) { expiration = some 6 } ∷ []))
      ""
    ≡ action_deny
unfolding tests
expired_acl = refl
