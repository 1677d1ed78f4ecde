-- ===== src/Channel/Permission.antt =====
-- Which connections ChannelHandler forwards.
use mathlib.Core.Path.{subst}
use sshportal.Base.{
  ◌⊎◌, eqb, ℕ, zero, suc, String, ◌≡◌, Bool, false, Option, none, some, List, [], ◌∷◌, ◌==◌, inl,
  inr, arith, Bool-cases, Option-cases, ok, Result-cases, both_succeed, eq_iff,
}
use sshportal.Models.{User, Host, Session, action_allow, scheme_ssh}
use sshportal.Channel.Outcomes.{channel_handler-outcome}
use sshportal.Access.Hook.{check_acls}
use sshportal.Hosts.{scheme, dial_addr, ClientConfig, client_config}
use sshportal.Auth.{AuthContext}
use sshportal.Channel.{
  session_row, ChannelError, no_user, no_host, Env, SessionConfig, Walk, arrived, refused, dropped,
  panicked, endless, Outcome, forwarding, configured, required, permit, open_secrets, authorize,
  hop_of, walk, host_by_name, start_session, channel_handler,
}

required_ok {ℓ} :
    {A : Type ℓ} (x : ChannelError) (o : Option A) (a : A) → required x o ≡ ok a → o ≡ some a
unfolding required
required_ok x none a e = absurd cc
required_ok x (some b) a e = cc

permit_ok : (action : String) (c d : ClientConfig) → permit action c ≡ ok d → action ≡ action_allow
unfolding permit
permit_ok action c d e = elim (Bool-cases (action == action_allow)) [
  | inl h ↦ (eq_iff _ _).0 h
  | inr h ↦ absurd (denied h)
]
  where
    denied : (action == action_allow) ≡ false → ⊥
    denied h = ground (arith)

module _ {S : Type 0} (env : Env S) (ctx : AuthContext) (s : S) where
  open env use {url, suite, runtime, hook, load_user, load_host, clock}

  -- the ACLs let the user of the connection into the host, and the configuration is the host's
  pub record Permitted (host : Host) (config : SessionConfig) : Type 0 where
    pub opened : Host
    pub secrets : open_secrets env ctx.config.aes_key host ≡ some opened
    pub user : User
    pub user_row : load_user ctx.user.id s ≡ some user
    pub row : Host
    pub host_row : load_host opened.id s ≡ some row
    pub moment : ℕ
    pub allowed :
        check_acls runtime hook (clock moment) user row ctx.config.acl_check_cmd ≡ action_allow
    pub dialled : dial_addr url opened ≡ some config.addr

  -- what is behind a host: nothing, or the host that is named by what Association finds
  abbrev pub Behind : Host → Option Host → Type 0
  Behind host hop =
      ((host.hop_id ≡ 0) × (hop ≡ none))
      ⊎ ((found : Host) × (env.association "HopID" host s ≡ some found)
          × (hop ≡ host_by_name env found.name s))

  -- the way from the target to a host, or to the end, with the configurations of all hosts before it;
  -- each is permitted itself, and leads to the one behind it
  pub data Route (t : Host) : Option Host → List SessionConfig → Type 0 where
    from : Route t (some t) []
    via :
        {configs : List SessionConfig} {hop : Option Host} (host : Host) (c : SessionConfig)
        (p : Permitted host c)
        → Behind p.opened hop
        → Route t (some host) configs
        → Route t hop (c ∷ configs)

  abbrev RouteOf : Host → Walk → Type 0
  RouteOf t (arrived configs) = Route t none configs
  RouteOf t _ = Unit

  hop_of-Behind : (o : Host) (hop : Option Host) → hop_of env o s ≡ some hop → Behind o hop
  unfolding hop_of
  hop_of-Behind o hop e = elim (Bool-cases (eqb o.hop_id 0)) [
    | inl h ↦ inl (ground arith, ground arith)
    | inr h ↦ elim (Option-cases (env.association "HopID" o s)) [
      | inl n ↦ absurd (ground arith)
      | inr (found, q) ↦ inr (found, q, ground arith)
    ]
  ]

  authorize_sound :
      (now : ℕ) (h : Host) {config : ClientConfig}
      → authorize env ctx now s h ≡ ok config
      → (u : User) × (r : Host) × (load_user ctx.user.id s ≡ some u)
        × (load_host h.id s ≡ some r)
        × (check_acls runtime hook now u r ctx.config.acl_check_cmd ≡ action_allow)
  unfolding authorize configured required permit
  authorize_sound now h {config} e =
      let (c, _, e₁) = both_succeed (configured (client_config url env.parses h)) _ config e in
      let (u, hu, e₂) = both_succeed (required no_user (load_user ctx.user.id s)) _ config e₁ in
      let (r, hr, e₃) = both_succeed (required no_host (load_host h.id s)) _ config e₂ in
      (u, r, required_ok _ _ u hu, required_ok _ _ r hr, permit_ok _ c config e₃)

  walk-RouteOf :
      (fuel n : ℕ) (t : Host) (current : Option Host) (configs : List SessionConfig)
      → Route t current configs
      → RouteOf t (walk env fuel n ctx s current configs)
  unfolding walk
  walk-RouteOf fuel n t none configs r = r
  walk-RouteOf zero n t (some host) configs r = tt
  walk-RouteOf (suc fuel) n t (some host) configs r =
      elim (Option-cases (open_secrets env ctx.config.aes_key host)) [
        | inl e ↦ rw (e, RouteOf) tt
        | inr (h, eh) ↦ elim (Result-cases (authorize env ctx (clock n) s h)) [
          | inl (x, ex) ↦ rw (eh, ex, RouteOf) tt
          | inr (config, ec) ↦ elim (Option-cases (dial_addr url h)) [
            | inl e ↦ rw (eh, ec, e, RouteOf) tt
            | inr (addr, ea) ↦ elim (Option-cases (hop_of env h s)) [
              | inl e ↦ rw (eh, ec, ea, e, RouteOf) tt
              | inr (hop, ehop) ↦
                  let c : SessionConfig = record {
                    addr = addr;
                    client_config = config;
                    logs_location = ctx.config.logs_location;
                    logging_mode = h.logging;
                  } in
                  let (u, row, hu, hr, ha) = authorize_sound (clock n) h ec in
                  let p : Permitted host c = record {
                    opened = h;
                    secrets = eh;
                    user = u;
                    user_row = hu;
                    row = row;
                    host_row = hr;
                    moment = n;
                    allowed = ha;
                    dialled = ea;
                  } in
                  rw (eh, ec, ea, ehop, RouteOf)
                    (walk-RouteOf fuel (suc n) t hop (c ∷ configs)
                      (via host c p (hop_of-Behind h hop ehop) r))
            ]
          ]
        ]
      ]

  abbrev pub Target : List SessionConfig → Type 0
  Target configs =
      (t : Host) × (host_by_name env ctx.input_username s ≡ some t)
      × (scheme url t ≡ scheme_ssh)
      × Route t none configs

  abbrev Forwards : Outcome → Type 0
  Forwards (forwarding configs _) = Target configs
  Forwards _ = Unit

  start_session-Forwards :
      (t : Host) (w : Walk)
      → host_by_name env ctx.input_username s ≡ some t
      → scheme url t ≡ scheme_ssh
      → RouteOf t w
      → Forwards (start_session env ctx t w s).0
  unfolding start_session
  start_session-Forwards t (arrived configs) e sch h =
      elim (Option-cases (env.create_session (session_row ctx.user t) s)) [
        | inl n ↦ rw (n, Forwards) tt
        | inr (p, r) ↦ rw (r, Forwards) (t, e, sch, h)
      ]
  start_session-Forwards t (refused x) e sch h = tt
  start_session-Forwards t dropped e sch h = tt
  start_session-Forwards t panicked e sch h = tt
  start_session-Forwards t endless e sch h = tt

  channel_handler-Forwards :
      (fuel : ℕ) (channel_type : String) (resolves : Bool)
      → Forwards (channel_handler env fuel channel_type resolves ctx s).0
  channel_handler-Forwards fuel channel_type resolves =
      channel_handler-outcome env ctx s fuel Forwards tt (λ _. tt) (λ _. tt) tt
        (λ t e sch. start_session-Forwards t _ e sch (walk-RouteOf fuel 0 t (some t) [] from))
        channel_type resolves

  -- If a channel is forwarded, then to the host that the user name names, whose scheme is `ssh`, and
  -- which is the last of the configurations. Each configuration before another is that of the host
  -- whose name Association answers for the hop of the one behind it, up to one that has no hop or
  -- whose hop has a name that no host has; and for each of these hosts, the hops included, the
  -- ACLs or the command that may overrule them have answered `allow` for the user and the row of
  -- just that host, whose address is the one that is dialled.
  pub channel_handler-Target :
      (fuel : ℕ) (channel_type : String) (resolves : Bool) (configs : List SessionConfig)
      (sess : Session) (s' : S)
      → channel_handler env fuel channel_type resolves ctx s ≡ (forwarding configs sess, s')
      → Target configs
  channel_handler-Target fuel channel_type resolves configs sess s' e =
      subst (λ (o : Outcome × S). Forwards o.0) e
        (channel_handler-Forwards fuel channel_type resolves)
