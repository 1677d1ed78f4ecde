-- ===== src/Channel/Hops.antt =====
-- The hops of a host, where gorm answers as it documents: Association takes the name of a field that
-- is a relationship of the model, and is an error for any other. HopID is a column.
use sshportal.Base.{
  ℕ, suc, String, ◌≡◌, refl, sym, ◌∙◌, Bool, false, ◌||◌, none, some, List, [], ◌∷◌, eqb, ◌==◌, inl,
  inr, arith, Bool-cases, Option-cases, Result-cases, ◌⊎◌,
}
use sshportal.Models.{Host}
use sshportal.Crypto.{host_decrypt}
use sshportal.Hosts.{dial_addr}
use sshportal.Auth.{AuthContext}
use sshportal.Channel.Outcomes.{channel_handler-outcome}
use sshportal.Channel.{
  Env, SessionConfig, Walk, arrived, refused, dropped, panicked, endless, open_secrets, authorize,
  hop_of, walk, Outcome, forwarding, stopped, host_by_name, start_session, session_row,
  channel_handler,
}

-- the fields of Host that are relationships
abbrev pub is_relationship : String → Bool
is_relationship name = name == "SSHKey" || name == "Groups" || name == "Hop"

abbrev pub IsDocumented : {S : Type 0} → Env S → Type 0
IsDocumented {S} env =
    (name : String) (host : Host) (s : S)
    → is_relationship name ≡ false
    → env.association name host s ≡ none

abbrev OneRound : ℕ → List SessionConfig → Walk → Type 0
OneRound hop_id configs (arrived l) = (hop_id ≡ 0) × ((c : SessionConfig) × (l ≡ c ∷ configs))
OneRound hop_id configs endless = ⊥
OneRound hop_id configs _ = Unit

module _ {S : Type 0} (env : Env S) (documented : IsDocumented env) (ctx : AuthContext)
    (s : S) where
  hop_id-open_secrets :
      (aes : String) (host h : Host) → open_secrets env aes host ≡ some h → h.hop_id ≡ host.hop_id
  unfolding open_secrets host_decrypt
  hop_id-open_secrets aes host h e = ground arith

  no_hop :
      (host : Host)
      → (hop_of env host s ≡ none) ⊎ ((hop_of env host s ≡ some none) × (host.hop_id ≡ 0))
  unfolding hop_of
  no_hop host = elim (Bool-cases (eqb host.hop_id 0)) [
    | inl h ↦ inr (rw (h) refl, ground arith)
    | inr h ↦ inl (rw (h, documented "HopID" host s refl) refl)
  ]

  -- the walk over the hops has one round
  walk-OneRound :
      (fuel n : ℕ) (host : Host) (configs : List SessionConfig)
      → OneRound host.hop_id configs (walk env (suc fuel) n ctx s (some host) configs)
  unfolding walk
  walk-OneRound fuel n host configs =
      elim (Option-cases (open_secrets env ctx.config.aes_key host)) [
        | inl e ↦ rw (e, OneRound) tt
        | inr (o, eo) ↦ elim (Result-cases (authorize env ctx (env.clock n) s o)) [
          | inl (x, ex) ↦ rw (eo, ex, OneRound) tt
          | inr (config, ec) ↦ elim (Option-cases (dial_addr env.url o)) [
            | inl e ↦ rw (eo, ec, e, OneRound) tt
            | inr (addr, ea) ↦ elim (no_hop o) [
              | inl e ↦ rw (eo, ec, ea, e, OneRound) tt
              | inr (e, z) ↦
                  rw (eo, ec, ea, e, OneRound)
                    (sym (hop_id-open_secrets ctx.config.aes_key host o eo) ∙ z, (_, refl))
            ]
          ]
        ]
      ]

  -- no session is more than one connection, and none is to a host with a hop
  abbrev pub Single : Outcome → Type 0
  Single (forwarding configs row) =
      (t : Host) × (host_by_name env ctx.input_username s ≡ some t)
      × (t.hop_id ≡ 0)
      × ((c : SessionConfig) × (configs ≡ c ∷ []))
  Single (stopped endless) = ⊥
  Single _ = Unit

  start_session-Single :
      (t : Host) (w : Walk)
      → host_by_name env ctx.input_username s ≡ some t
      → OneRound t.hop_id [] w
      → Single (start_session env ctx t w s).0
  unfolding start_session
  start_session-Single t (arrived configs) e h =
      elim (Option-cases (env.create_session (session_row ctx.user t) s)) [
        | inl n ↦ rw (n, Single) tt
        | inr (p, r) ↦ rw (r, Single) (t, e, h.0, h.1)
      ]
  start_session-Single t (refused x) e h = tt
  start_session-Single t dropped e h = tt
  start_session-Single t panicked e h = tt
  start_session-Single t endless e h = h

  -- Where Association("HopID") is an error, as gorm documents it for a name that is no relationship, the loop
  -- over the hops ends after one round, for every host and whatever its hops are; and a channel is forwarded over
  -- one connection only, to a host without a hop: one that has a hop is never reached.
  pub channel_handler-Single :
      (fuel : ℕ) (channel_type : String) (resolves : Bool)
      → Single (channel_handler env (suc fuel) channel_type resolves ctx s).0
  channel_handler-Single fuel channel_type resolves =
      channel_handler-outcome env ctx s (suc fuel) Single tt (λ _. tt) (λ _. tt) tt
        (λ t e sch. start_session-Single t _ e (walk-OneRound fuel 0 t [])) channel_type resolves
