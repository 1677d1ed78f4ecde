-- ===== src/Session/Settling.antt =====
-- What the goroutine of a session, in ChannelHandler of pkg/bastion/ssh.go, comes to where the
-- session ends.
use mathlib.Core.Path.{subst}
use sshportal.Base.{
  ℕ, String, ◌≡◌, ◌≢◌, refl, sym, ap, ◌∙◌, Bool, true, false, ◌&&◌, ◌||◌, Option, none, some, List,
  [], ◌∷◌, ◌++◌, map, ◌==◌, ◌⊎◌, inl, inr, arith, Result, ok, err, if◌then◌else◌,
}
use sshportal.Models.{Session}
use sshportal.Channel.{SessionConfig}
use sshportal.Session.Pipe.{
  Quit, lch_copied, rch_copied, lreqs_done, rreqs_done, Event, failed, quit, Progress, returned,
  run, start,
}
use sshportal.Session.Endings.{came, run_outcome}
use sshportal.Session.Start.{
  Naming, Files, Started, stopped, copying, pipe, pipe_start, after_start,
}
use sshportal.Session.Hops
use sshportal.Session.Hops.{
  Network, Reached, reached, lost, Handled, last_config, dial_all, opened, data_read, after_accept,
  multi_channel_handler,
}
use sshportal.Session.Closing.{close_session, ending, closed_by, serve_session}
use sshportal.Session.Chain.{Chained, dial_all-Chained}

-- all four goroutines report, or one of them fails
abbrev pub Ended : List (Event String) → Type 0
Ended es =
    (qs : List Quit) × (((es ≡ map quit qs)
        × ((came lch_copied qs && came rch_copied qs && came lreqs_done qs && came rreqs_done qs)
            ≡ true))
      ⊎ ((e : String) × (es' : List (Event String)) × (es ≡ map quit qs ++ failed e ∷ es')))

abbrev pub Returns : Progress String → Type 0
Returns p = (e : Option String) × (p ≡ returned e)

if-Returns :
    (b : Bool) (e : Option String) (p : Progress String)
    → Returns p
    → Returns (if b then returned e else p)
if-Returns true e p r = (e, refl)
if-Returns false e p r = r

run-Returns : (es : List (Event String)) → Ended es → Returns (run start es).0
run-Returns es (qs, inl (q, all)) =
    (none, ap (λ l. (run start l).0) q ∙ (run_outcome qs "" []).0 ∙ rw (all) refl)
run-Returns es (qs, inr (e, es', q)) =
    subst (λ l. Returns (run start l).0) (sym q)
      (subst Returns (sym (run_outcome qs e es').1)
        (if-Returns _ none (returned (some e)) (some e, refl)))

module _ (files : Files String) (naming : Naming) where
  after_start-Returns :
      (st : Started String) (es : List (Event String))
      → Ended es
      → Returns (after_start files st es).0
  after_start-Returns (stopped e) es ended = (some e, refl)
  after_start-Returns (copying name cs) es ended = run-Returns es ended

  pub pipe-Returns :
      (logs_location channel_type mode : String) (es : List (Event String))
      → Ended es
      → Returns (pipe files naming logs_location channel_type mode es).0
  unfolding pipe
  pipe-Returns logs_location channel_type mode es ended =
      after_start-Returns (pipe_start files naming logs_location channel_type mode) es ended

last_config-some :
    (c : SessionConfig) (cs : List SessionConfig)
    → (d : SessionConfig) × (last_config (c ∷ cs) ≡ some d)
last_config-some c [] = (c, refl)
last_config-some c (d ∷ l) = last_config-some d l

module _ {C K A : Type 0} (net : Network String C K A) (forwarded : SessionConfig → Progress String)
    (returns : (c : SessionConfig) → Returns (forwarded c)) where
  abbrev Settles : Handled String A → Type 0
  Settles h = (e : Option String) × (ending h forwarded ≡ some e)

  opened-Settles : (r : Result String A) (c : SessionConfig) → Settles (opened net r (some c))
  opened-Settles (err e) c = (some e, refl)
  opened-Settles (ok a) c = let (e, q) = returns c in (e, rw (q) refl)

  not-none : (cs : List SessionConfig) (ks : List C) (k : C) → Chained net (some k) cs ks none → ⊥
  not-none [] [] k e = ground arith
  not-none [] (k' ∷ ks) k e = e
  not-none (c ∷ cs) [] k e = e
  not-none (c ∷ cs) (k' ∷ ks) k e = not-none cs ks k' e.1

  data_read-Settles :
      (o : Option String) (channel_type : String) (client : C) (c : SessionConfig)
      (cs : List SessionConfig)
      → Settles (data_read net o channel_type client (c ∷ cs))
  data_read-Settles (some e) channel_type client c cs = (some e, refl)
  data_read-Settles none channel_type client c cs =
      let (d, q) = last_config-some c cs in
      subst (λ l. Settles (opened net (net.open_channel client channel_type) l)) (sym q)
        (opened-Settles (net.open_channel client channel_type) d)

  arrived-Settles :
      (channel_type : String) (c : SessionConfig) (cs : List SessionConfig) (r : Reached String C)
      → (dial_all net (c ∷ cs) none).0 ≡ r
      → Settles (Hops.arrived net r channel_type (c ∷ cs))
  arrived-Settles channel_type c cs (lost e closed) q = (some e, refl)
  arrived-Settles channel_type c cs (reached none) q =
      absurd
        (not-nothing cs (dial_all net (c ∷ cs) none).1 (dial_all-Chained net (c ∷ cs) none none q))
    where
      not-nothing : (l : List SessionConfig) (ks : List C) → Chained net none (c ∷ l) ks none → ⊥
      not-nothing l [] e = e
      not-nothing l (k ∷ ks) e = not-none l ks k e.1
  arrived-Settles channel_type c cs (reached (some client)) q =
      data_read-Settles (if channel_type == "direct-tcpip" then net.unmarshal else none)
        channel_type client c cs

  after_accept-Settles :
      (o : Option String) (channel_type : String) (c : SessionConfig) (cs : List SessionConfig)
      → Settles (after_accept net o channel_type (c ∷ cs)).0
  after_accept-Settles (some e) channel_type c cs = (none, refl)
  after_accept-Settles none channel_type c cs =
      arrived-Settles channel_type c cs (dial_all net (c ∷ cs) none).0 refl

  -- whatever the channel's type
  multi_channel_handler-Settles :
      (channel_type : String) (configs : List SessionConfig)
      → configs ≢ []
      → Settles (multi_channel_handler net channel_type configs).0
  unfolding multi_channel_handler
  multi_channel_handler-Settles channel_type [] some_config = absurd (some_config refl)
  multi_channel_handler-Settles channel_type (c ∷ cs) some_config =
      taken (channel_type == "session" || channel_type == "direct-tcpip")
    where
      taken :
          (b : Bool)
          → Settles
              (if b
                then after_accept net net.accept channel_type (c ∷ cs)
                else (Hops.rejected, [])).0
      taken true = after_accept-Settles net.accept channel_type c cs
      taken false = (none, refl)

-- the row is closed, with an error or none
pub serve_session-closes :
    {C K A : Type 0} (net : Network String C K A) (files : Files String) (naming : Naming)
    (channel_type : String) (configs : List SessionConfig) (es : List (Event String)) (now : ℕ)
    (row : Session)
    → configs ≢ []
    → Ended es
    → (e : Option String) × (ending
          (multi_channel_handler net channel_type configs).0
          (λ c. (pipe files naming c.logs_location channel_type c.logging_mode es).0)
        ≡ some e)
      × (serve_session net files naming channel_type configs es now row
          ≡ some (close_session now e row))
unfolding serve_session closed_by
serve_session-closes net files naming channel_type configs es now row some_config ended =
    let (e, q) =
      multi_channel_handler-Settles net
        (λ c. (pipe files naming c.logs_location channel_type c.logging_mode es).0)
        (λ c. pipe-Returns files naming c.logs_location channel_type c.logging_mode es ended)
        channel_type configs some_config in
    (e, q, ap (closed_by now row) q)
