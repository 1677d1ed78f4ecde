-- ===== src/Channel/Outcomes.antt =====
-- The ways in which ChannelHandler of pkg/bastion/ssh.go ends.
use sshportal.Base.{
  ℕ, String, ◌≡◌, Bool, not, ◌&&◌, ◌||◌, some, [], eqb, ◌==◌, inl, inr, Bool-cases, Option-cases,
  eq_iff,
}
use sshportal.Models.{Host, scheme_ssh, scheme_telnet}
use sshportal.Hosts.{scheme}
use sshportal.Auth.{
  AuthContext, UserType, bastion, healthcheck, invite, shell, user_type, is_healthcheck,
}
use sshportal.Channel.{
  Env, ChannelError, refused, Outcome, rejected, stopped, telnet, served, host_by_name, walk,
  start_session, bastion_channel, channel_handler,
}

-- what holds of the ends without a session, and of a session with the host of the user name
module _ {S : Type 0} (env : Env S) (ctx : AuthContext) (s : S) (fuel : ℕ) (P : Outcome → Type 0)
    (of_rejected : P rejected) (of_stopped : (x : ChannelError) → P (stopped (refused x)))
    (of_telnet : (host : Host) → P (telnet host)) (of_served : P served)
    (of_session : (t : Host)
      → host_by_name env ctx.input_username s ≡ some t
      → scheme env.url t ≡ scheme_ssh
      → P (start_session env ctx t (walk env fuel 0 ctx s (some t) []) s).0) where
  bastion_channel-outcome : P (bastion_channel env fuel ctx s).0
  unfolding bastion_channel
  bastion_channel-outcome = elim (Option-cases (host_by_name env ctx.input_username s)) [
    | inl n ↦ rw (n, bastion_channel) (of_stopped _)
    | inr (t, e) ↦ elim (Bool-cases (scheme env.url t == scheme_ssh)) [
      | inl h ↦ rw (e, h, bastion_channel) (of_session t e ((eq_iff _ _).0 h))
      | inr h ↦ elim (Bool-cases (scheme env.url t == scheme_telnet)) [
        | inl k ↦ rw (e, h, k, bastion_channel) (of_telnet t)
        | inr k ↦ rw (e, h, k, bastion_channel) (of_stopped _)
      ]
    ]
  ]

  pub channel_handler-outcome :
      (channel_type : String) (resolves : Bool)
      → P (channel_handler env fuel channel_type resolves ctx s).0
  unfolding channel_handler
  channel_handler-outcome channel_type resolves =
      elim (Bool-cases (not (channel_type == "session" || channel_type == "direct-tcpip"))) [
        | inl k ↦ rw (k) of_rejected
        | inr k ↦
            elim (Bool-cases (
              eqb ctx.user.id 0
              && not (is_healthcheck (user_type ctx.input_username ctx.user))
              && resolves)) [
                | inl d ↦ rw (k, d) (of_stopped _)
                | inr d ↦ rw (k, d) (by_type (user_type ctx.input_username ctx.user))
              ]
      ]
    where
      by_type :
          (u : UserType)
          → P
              (elim u as (λ _. Outcome × S) [
                | bastion ↦ bastion_channel env fuel ctx s
                | healthcheck ↦ (served, s)
                | invite ↦ (served, s)
                | shell ↦ (served, s)
              ]).0
      by_type bastion = bastion_channel-outcome
      by_type healthcheck = of_served
      by_type invite = of_served
      by_type shell = of_served
