-- ===== src/Access/Verdict.antt =====
-- The hook's verdict, and the action of checkACLs as a whole.
use Prim.Native.String.{[] as nil, ◌∷◌ as cons}
use text.Mathlib.TextEquality.{Char-path}
use text.Mathlib.TextLemmas.{cons-append, nil-append}
use sshportal.Base.{
  Char, code, String, ◌<>◌, ◌≡◌, refl, sym, ap, ◌∙◌, ◌≢◌, ◌⊎◌, inl, inr, true, false, Option, none,
  some, [], ◌∷◌, eqb, eqb_iff, Bool-cases, Result-cases, differs, ◌==◌, eq_iff, ok, err,
}
use sshportal.Models.{User, Host, action_allow, action_deny}
use sshportal.Access.Hook.{HookEnv, HookError, Run, trim_newline, read_answer, finish, check_hook}

-- TrimSuffix takes one newline off the end, or nothing.
trim_newline_cases : (s : String) → (trim_newline s ≡ s) ⊎ (s ≡ trim_newline s <> "\n")
unfolding trim_newline
trim_newline_cases nil = inl refl
trim_newline_cases (cons c nil) = elim (Bool-cases (eqb (code c) 10)) [
  | inl e ↦ rw e (
      inr
        (ap (λ (d : Char). cons d nil) (Char-path c "\n" ((eqb_iff _ _).0 e)) ∙ sym (nil-append _)))
  | inr e ↦ rw e (inl refl)
]
trim_newline_cases (cons c (cons d s)) = elim (trim_newline_cases (cons d s)) [
  | inl e ↦ inl (ap (cons c) e)
  | inr e ↦ inr (ap (cons c) e ∙ sym (cons-append c _ _))
]

-- The two outputs that `answer` is read from.
trimmed : (out a : String) → trim_newline out ≡ a → (out ≡ a) ⊎ (out ≡ a <> "\n")
trimmed out a e = elim (trim_newline_cases out) [
  | inl same ↦ inl (sym same ∙ e)
  | inr cut ↦ inr (cut ∙ ap (λ s. s <> "\n") e)
]

-- The hook answers `a`: it is set and runs in time, and prints `allow` or `deny`, with or without a
-- newline behind it.
pub data Answers (env : HookEnv) (cmd action : String) (user : User) (host : Host) (a : String)
    : Type 0 where
  answers :
      (json_user json_host out : String)
      → cmd ≢ ""
      → env.marshal_user user ≡ ok json_user
      → env.marshal_host host ≡ ok json_host
      → (env.execute cmd (action ∷ json_user ∷ json_host ∷ [])).output ≡ ok out
      → (env.execute cmd (action ∷ json_user ∷ json_host ∷ [])).deadline_exceeded ≡ false
      → (out ≡ a) ⊎ (out ≡ a <> "\n")
      → (a ≡ action_allow) ⊎ (a ≡ action_deny)
      → Answers env cmd action user host a

-- How a call of the hook ends: unset, answered, or failed.
pub data Verdict (env : HookEnv) (cmd action : String) (user : User) (host : Host)
    (r : String × Option HookError) : Type 0 where
  unset : cmd ≡ "" → r ≡ (action, none) → Verdict env cmd action user host r
  answered :
      (a : String)
      → Answers env cmd action user host a
      → r ≡ (a, none)
      → Verdict env cmd action user host r
  failed :
      (e : HookError)
      → cmd ≢ ""
      → ((a : String) → ¬ Answers env cmd action user host a)
      → r ≡ (action, some e)
      → Verdict env cmd action user host r

trim_answer :
    (a out : String)
    → (out ≡ a) ⊎ (out ≡ a <> "\n")
    → (a ≡ action_allow) ⊎ (a ≡ action_deny)
    → trim_newline out ≡ a
unfolding trim_newline
trim_answer a out (inl e) (inl v) = rw (e, v)
trim_answer a out (inl e) (inr v) = rw (e, v)
trim_answer a out (inr e) (inl v) = rw (e, v)
trim_answer a out (inr e) (inr v) = rw (e, v)

module _ (env : HookEnv) (cmd action : String) (user : User) (host : Host) where
  no_user_json :
      (x : Unit {0})
      → env.marshal_user user ≡ err x
      → (a : String) → ¬ Answers env cmd action user host a
  no_user_json x e a (answers ju jh out set mu mh o d t v) = cc

  no_host_json :
      (x : Unit {0})
      → env.marshal_host host ≡ err x
      → (a : String) → ¬ Answers env cmd action user host a
  no_host_json x e a (answers ju jh out set mu mh o d t v) = cc

  module _ (ju jh : String) (mu : env.marshal_user user ≡ ok ju)
      (mh : env.marshal_host host ≡ ok jh) where
    run : Run
    run = env.execute cmd (action ∷ ju ∷ jh ∷ [])

    same_run :
        (lu lh : String)
        → env.marshal_user user ≡ ok lu
        → env.marshal_host host ≡ ok lh
        → env.execute cmd (action ∷ lu ∷ lh ∷ []) ≡ run
    unfolding run
    same_run lu lh p q = cc

    no_output :
        (x : Unit {0}) → run.output ≡ err x → (a : String) → ¬ Answers env cmd action user host a
    no_output x e a (answers lu lh out set pu ph o d t v) = cc (same_run lu lh pu ph)

    too_late : run.deadline_exceeded ≡ true → (a : String) → ¬ Answers env cmd action user host a
    too_late e a (answers lu lh out set pu ph o d t v) = cc (same_run lu lh pu ph)

    module _ (out : String) (o : run.output ≡ ok out) where
      neither :
          trim_newline out ≢ action_allow
          → trim_newline out ≢ action_deny
          → (a : String) → ¬ Answers env cmd action user host a
      neither na nd a (answers lu lh out' set pu ph o' d t v) = elim v [
        | inl p ↦ na (said ∙ p)
        | inr p ↦ nd (said ∙ p)
      ]
        where
          same : out ≡ out'
          same = cc (same_run lu lh pu ph)

          said : trim_newline out ≡ a
          said = rw same (trim_answer a out' t v)

      module _ (set : cmd ≢ "") (d : run.deadline_exceeded ≡ false) where
        said_it :
            (a : String)
            → trim_newline out ≡ a
            → (a ≡ action_allow) ⊎ (a ≡ action_deny)
            → Answers env cmd action user host a
        unfolding run
        said_it a e v = answers ju jh out set mu mh o d (trimmed out a e) v

        read_answer-Verdict :
            Verdict env cmd action user host (read_answer action (trim_newline out))
        unfolding read_answer
        read_answer-Verdict = elim (Bool-cases (trim_newline out == action_allow)) [
          | inl e ↦
              answered action_allow (said_it action_allow ((eq_iff _ _).0 e) (inl refl)) (rw e refl)
          | inr ne ↦ elim (Bool-cases (trim_newline out == action_deny)) [
            | inl e ↦
                answered action_deny (said_it action_deny ((eq_iff _ _).0 e) (inr refl))
                  (rw (ne, e) refl)
            | inr nd ↦
                failed (HookError.wrong_output (trim_newline out)) set
                  (neither (differs ne) (differs nd)) (rw (ne, nd) refl)
          ]
        ]

    finish-Verdict : cmd ≢ "" → Verdict env cmd action user host (finish action run)
    unfolding finish
    finish-Verdict set = elim (Result-cases run.output) [
      | inl (x, e) ↦ failed HookError.command set (no_output x e) (rw e refl)
      | inr (out, e) ↦ elim (Bool-cases run.deadline_exceeded) [
        | inl d ↦ failed HookError.timed_out set (too_late d) (rw (e, d) refl)
        | inr d ↦ rw (e, d) (read_answer-Verdict out e set d)
      ]
    ]

  -- A call of the hook ends in one of three ways. Unset, it leaves the action. If it answers in time,
  -- that answer is the action, without an error. Otherwise, whatever failed, the action is as it was
  -- and there is an error.
  pub check_hook-Verdict : Verdict env cmd action user host (check_hook env cmd action user host)
  unfolding check_hook
  check_hook-Verdict = elim (Bool-cases (cmd == "")) [
    | inl e ↦ unset ((eq_iff cmd "").0 e) (rw e refl)
    | inr ne ↦ elim (Result-cases (env.marshal_user user)) [
      | inl (x, e) ↦ failed HookError.marshal (differs ne) (no_user_json x e) (rw (ne, e) refl)
      | inr (ju, mu) ↦ elim (Result-cases (env.marshal_host host)) [
        | inl (x, e) ↦
            failed HookError.marshal (differs ne) (no_host_json x e) (rw (ne, mu, e) refl)
        | inr (jh, mh) ↦ rw (ne, mu, mh) (unfold run in finish-Verdict ju jh mu mh (differs ne))
      ]
    ]
  ]
