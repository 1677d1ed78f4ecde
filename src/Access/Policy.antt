-- ===== src/Access/Policy.antt =====
-- The action of checkACLs as a whole.
use sshportal.Base.{ℕ, ◌≤◌, String, ◌≡◌, sym, ap, ◌∙◌, ◌⊎◌, inl, inr, arith}
use sshportal.Models.{Acl, User, Host}
use sshportal.Access.Acls.{Runtime, acl_map, select_action}
use sshportal.Access.Hook.{HookEnv, check_hook, check_acls}
use sshportal.Access.Decision.{Shares, IsCoherent, Decides, refused, granted, select_action-Decides}
use sshportal.Access.Verdict.{Answers, answered, unset, failed, check_hook-Verdict}

module _ (now : ℕ) (user : User) (host : Host) (one_row : IsCoherent user) where
  -- Where the ACLs that the user's groups name by one id are one row, checkACLs returns the hook's
  -- answer, or else an action that the shared ACLs in force justify: `deny` if there is none, and
  -- otherwise the action of one of the lightest.
  pub check_acls-Decides :
      (rt : Runtime) (env : HookEnv) (cmd : String)
      → Decides now user host (check_acls rt env now user host cmd)
        ⊎ Answers env cmd
            (select_action rt (acl_map now user host))
            user
            host
            (check_acls rt env now user host cmd)
  unfolding check_acls
  check_acls-Decides rt env cmd =
      elim (check_hook-Verdict env cmd (select_action rt (acl_map now user host)) user host) [
        | unset _ e ↦ inl (rw (e, check_acls) (select_action-Decides now user host one_row rt))
        | answered a h e ↦ inr (rw (e, check_acls) h)
        | failed _ _ _ e ↦ inl (rw (e, check_acls) (select_action-Decides now user host one_row rt))
      ]

  agree :
      {x y : String}
      → ((a b : Acl)
          → Shares now user host a
          → Shares now user host b
          → a.weight ≡ b.weight
          → a.action ≡ b.action)
      → Decides now user host x
      → Decides now user host y
      → x ≡ y
  agree tie (refused nil p) (refused _ q) = p ∙ sym q
  agree tie (refused nil p) (granted b hb _ q) = absurd (nil b hb)
  agree tie (granted a ha _ p) (refused nil q) = absurd (nil a ha)
  agree tie (granted a ha la p) (granted b hb lb q) =
      let lighter : a.weight ≤ b.weight = la b hb in
      let heavier : b.weight ≤ a.weight = lb a ha in p ∙ tie a b ha hb (omega arith) ∙ sym q

  -- If moreover shared ACLs in force of equal weight have equal actions, the result depends neither
  -- on the order in which the map is read nor on how the sort places equal weights.
  pub check_acls_unique :
      ((a b : Acl)
        → Shares now user host a
        → Shares now user host b
        → a.weight ≡ b.weight
        → a.action ≡ b.action)
      → (rt rt' : Runtime) (env : HookEnv) (cmd : String)
      → check_acls rt env now user host cmd ≡ check_acls rt' env now user host cmd
  unfolding check_acls
  check_acls_unique tie rt rt' env cmd =
      ap (λ action. (check_hook env cmd action user host).0)
        (agree tie (select_action-Decides now user host one_row rt)
          (select_action-Decides now user host one_row rt'))
