-- ===== src/Server/Alive.antt =====
-- The healthcheck of healthcheck.go against the answers of the portal.
use sshportal.Base.{
  ℕ, zero, suc, ◌<◌, String, ◌≡◌, ◌≢◌, refl, sym, ap, Bool, true, false, Option, none, some, List,
  [], ◌∷◌, ◌++◌, length, if◌then◌else◌, arith, inl, inr, Option-cases, ok,
}
use sshportal.Auth.{AuthContext, Config, password_auth}
use sshportal.Server.Handlers.{Build, shell_handler, Handled, done, wrote}
use sshportal.Server.Health.{
  Probe, HealthError, printed_error, Waited, success, healthcheck_once, wait_loop, healthcheck,
}

module _ {E : Type 0} where
  printed_again :
      (quiet : Bool) (n : ℕ) (e : HealthError E) (l : List (HealthError E))
      → length l ≡ (if quiet then 0 else n)
      → length (printed_error quiet e ++ l) ≡ (if quiet then 0 else suc n)
  printed_again true n e l h = h
  printed_again false n e l h = ap suc h

  -- the loop sleeps once for each attempt before the first that succeeds
  abbrev First : Bool → ℕ → Waited E → Type 0
  First quiet n w =
      (w.ready ≡ true) × (w.seconds ≡ n) × (length w.printed ≡ (if quiet then 0 else n))

  wait_loop-First :
      (quiet : Bool) (n fuel : ℕ) (probe : ℕ → Probe E)
      → n < fuel
      → ((i : ℕ) → i < n → healthcheck_once (probe i) ≢ none)
      → healthcheck_once (probe n) ≡ none
      → First quiet n (wait_loop fuel probe quiet)
  unfolding wait_loop
  wait_loop-First quiet n zero probe lt fails answers = absurd (omega arith)
  wait_loop-First true zero (suc fuel) probe lt fails answers =
      rw (answers, wait_loop) (refl, refl, refl)
  wait_loop-First false zero (suc fuel) probe lt fails answers =
      rw (answers, wait_loop) (refl, refl, refl)
  wait_loop-First quiet (suc n) (suc fuel) probe lt fails answers =
      elim (Option-cases (healthcheck_once (probe 0))) [
        | inl h ↦ absurd (fails 0 (omega arith) h)
        | inr (e, h) ↦
            let later =
              wait_loop-First quiet n fuel (λ i. probe (suc i)) (omega arith)
                (λ i j. fails (suc i) (omega arith)) answers in
            rw (h, wait_loop) (later.0, ap suc later.1, printed_again quiet n e _ later.2)
      ]

-- the portal, as its handlers are called for the user `healthcheck`
module _ (run : AuthContext → Build → Option String) (build : Build) (config : Config) where
  -- the connection holds, what is read is what ShellHandler writes in the context of the password, and
  -- the line's end is trimmed
  pub record Answered {E : Type 0} (p : Probe E) : Type 0 where
    pub connected : p.connect ≡ none
    pub text : String
    pub written :
        shell_handler run build (password_auth config "healthcheck") ≡ done (wrote text ∷ [])
    pub read : p.run ≡ ok text
    pub trimmed : p.trim_space "OK\n" ≡ "OK"

  done-injective :
      {t u : String} → ◌≡◌ {A = Handled} (done (wrote t ∷ [])) (done (wrote u ∷ [])) → t ≡ u
  done-injective e = cc

  is_alive : {E : Type 0} (p : Probe E) → Answered p → healthcheck_once p ≡ none
  unfolding healthcheck_once shell_handler password_auth
  is_alive p a =
      let text_is : "OK\n" ≡ a.text = done-injective a.written in
      rw (a.connected, a.read, sym text_is, a.trimmed) refl

  -- The portal admits its healthcheck by password and answers it: if attempt n is answered by
  -- ShellHandler, and the attempts before it fail, `healthcheck` with `wait` returns success after n
  -- seconds, with n errors printed or, if it is quiet, none; and without `wait` it returns success at
  -- an attempt that is so answered.
  pub healthcheck_waits :
      {E : Type 0} (probe : ℕ → Probe E) (quiet : Bool) (n fuel : ℕ)
      → n < fuel
      → ((i : ℕ) → i < n → healthcheck_once (probe i) ≢ none)
      → Answered (probe n)
      → ((password_auth config "healthcheck").auth_success ≡ true)
        × ((healthcheck fuel probe true quiet).0 ≡ some success)
        × ((wait_loop fuel probe quiet).seconds ≡ n)
        × (length (healthcheck fuel probe true quiet).1 ≡ (if quiet then 0 else n))
        × (healthcheck fuel (λ _. probe n) false quiet ≡ (some success, []))
  unfolding healthcheck password_auth
  healthcheck_waits probe quiet n fuel lt fails answered =
      let once = is_alive (probe n) answered in
      let (ready, seconds, printed) = wait_loop-First quiet n fuel probe lt fails once in
      (refl, rw (ready) refl, seconds, printed, rw (once, healthcheck) refl)
