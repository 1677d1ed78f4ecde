-- ===== src/Server/Health.antt =====
-- healthcheck.go. The connection is a library's, as is the trimming of what comes back; what the
-- closing of the session prints is left out; E is the type of errors.
use sshportal.Base.{
  ℕ, zero, suc, String, Bool, true, false, Option, none, some, List, [], ◌∷◌, ◌++◌, ◌==◌,
  if◌then◌else◌, Result, ok, err,
}

pub data HealthError (E : Type 0) : Type 0 where
  broken : E → HealthError E
  invalid_stdout : String → HealthError E

-- what the portal answers to the user and the password `healthcheck`
pub record Probe (E : Type 0) : Type 0 where
  -- Dial and NewSession
  pub connect : Option E
  -- Run of an empty command, with what is on its stdout
  pub run : Result E String
  pub trim_space : String → String

unfoldable pub healthcheck_once : {E : Type 0} → Probe E → Option (HealthError E)
healthcheck_once p = elim p.connect [
  | some e ↦ some (broken e)
  | none ↦ elim p.run [
    | err e ↦ some (broken e)
    | ok out ↦
        let stdout = p.trim_space out in
        if stdout == "OK" then none else some (invalid_stdout stdout)
  ]
]

-- what ends the command; an ExitError with code 1 and no text is `silent`
pub data Exit (E : Type 0) : Type 0 where
  success silent : Exit E
  failed_with : HealthError E → Exit E

abbrev pub printed_error : {E : Type 0} → Bool → HealthError E → List (HealthError E)
printed_error true e = []
printed_error false e = e ∷ []

-- where the loop is: whether it has returned, for how many seconds it has slept, and what it has
-- printed
pub record Waited (E : Type 0) : Type 0 where
  pub ready : Bool
  pub seconds : ℕ
  pub printed : List (HealthError E)

abbrev pub after_failure : {E : Type 0} → Bool → HealthError E → Waited E → Waited E
after_failure quiet e w = record {
  ready = w.ready;
  seconds = suc w.seconds;
  printed = printed_error quiet e ++ w.printed;
}

abbrev pub exit_with : {E : Type 0} → Bool → Option (HealthError E) → Exit E
exit_with quiet none = success
exit_with quiet (some e) = if quiet then silent else failed_with e

module _ {E : Type 0} where
  -- the loop, given what each attempt meets, up to so many attempts
  unfoldable pub wait_loop : ℕ → (ℕ → Probe E) → Bool → Waited E
  unfolding healthcheck_once
  wait_loop zero probe quiet = record { ready = false; seconds = 0; printed = [] }
  wait_loop (suc fuel) probe quiet =
      let rest = wait_loop fuel (λ n. probe (suc n)) quiet in
      elim (healthcheck_once (probe 0)) [
        | none ↦ record { ready = true; seconds = 0; printed = [] }
        | some e ↦ after_failure quiet e rest
      ]

  -- with what is printed before; `none` while it waits
  unfoldable pub healthcheck :
      ℕ → (ℕ → Probe E) → Bool → Bool → Option (Exit E) × List (HealthError E)
  unfolding wait_loop
  healthcheck fuel probe true quiet =
      let w = wait_loop fuel probe quiet in (if w.ready then some success else none, w.printed)
  healthcheck fuel probe false quiet = (some (exit_with quiet (healthcheck_once (probe 0))), [])
