-- ===== src/Session/Hops.antt =====
-- multiChannelHandler of pkg/bastion/session.go, up to its call of `pipe`: the chain of connections.
-- What the network answers is a parameter; E is the type of its errors, C that of clients, K that of
-- raw connections, and A that of channels.
use sshportal.Base.{
  String, Bool, true, false, ◌||◌, Option, none, some, List, [], ◌∷◌, ◌==◌, if◌then◌else◌, Result,
  ok, err,
}
use sshportal.Hosts.{ClientConfig}
use sshportal.Channel.{SessionConfig}

pub record Network (E C K A : Type 0) : Type 0 where
  -- newChan.Accept
  pub accept : Option E
  -- gossh.Dial, Client.Dial, and NewClientConn with NewClient
  pub dial : String → ClientConfig → Result E C
  pub dial_through : C → String → Result E K
  pub handshake : K → String → ClientConfig → Result E C
  -- gossh.Unmarshal of the data of a tunnel
  pub unmarshal : Option E
  -- OpenChannel of that type, with the data of a tunnel
  pub open_channel : C → String → Result E A

-- how far the loop over the hops comes: the last client, or an error
pub data Reached (E C : Type 0) : Type 0 where
  reached : Option C → Reached E C
  -- with whether the client's own channel is closed
  lost : E → Bool → Reached E C

pub data Handled (E A : Type 0) : Type 0 where
  rejected ignored panicked : Handled E A
  -- with whether the client's own channel is closed
  failed : E → Bool → Handled E A
  piped : A → SessionConfig → Handled E A

-- configs[len(configs)-1]
abbrev pub last_config : {A : Type 0} → List A → Option A
last_config [] = none
last_config (x ∷ []) = some x
last_config (x ∷ y ∷ l) = last_config (y ∷ l)

module _ {E C K A : Type 0} (net : Network E C K A) where
  -- one hop: the first is dialled, a later one through the client before it
  unfoldable pub next_client : Option C → SessionConfig → Result E C
  next_client none c = net.dial c.addr c.client_config
  next_client (some client) c = elim (net.dial_through client c.addr) [
    | err e ↦ err e
    | ok conn ↦ net.handshake conn c.addr c.client_config
  ]

  -- the channel is closed after gossh.Dial alone: the errors of later hops are returned at once
  abbrev pub is_first : Option C → Bool
  is_first none = true
  is_first (some _) = false

  -- with the clients whose closing is deferred, in the order of their making
  unfoldable pub dial_all : List SessionConfig → Option C → Reached E C × List C
  unfolding next_client
  dial_all [] client = (reached client, [])
  dial_all (c ∷ cs) client = elim (next_client client c) [
    | err e ↦ (lost e (is_first client), [])
    | ok k ↦ let rest = dial_all cs (some k) in (rest.0, k ∷ rest.1)
  ]

  abbrev pub opened : Result E A → Option SessionConfig → Handled E A
  opened (err e) config = failed e false
  opened (ok a) none = panicked
  opened (ok a) (some config) = piped a config

  abbrev pub data_read : Option E → String → C → List SessionConfig → Handled E A
  data_read (some e) channel_type client configs = failed e false
  data_read none channel_type client configs =
      opened (net.open_channel client channel_type) (last_config configs)

  -- a nil client panics
  abbrev pub arrived : Reached E C → String → List SessionConfig → Handled E A
  arrived (lost e closed) channel_type configs = failed e closed
  arrived (reached none) channel_type configs =
      elim (if channel_type == "direct-tcpip" then net.unmarshal else none) [
        | some e ↦ failed e false
        | none ↦ panicked
      ]
  arrived (reached (some client)) channel_type configs =
      data_read (if channel_type == "direct-tcpip" then net.unmarshal else none) channel_type client
        configs

  abbrev pub after_accept : Option E → String → List SessionConfig → Handled E A × List C
  after_accept (some e) channel_type configs = (ignored, [])
  after_accept none channel_type configs =
      let r = dial_all configs none in (arrived r.0 channel_type configs, r.1)

  -- with the clients that are closed when it returns, the last one first
  unfoldable pub multi_channel_handler : String → List SessionConfig → Handled E A × List C
  unfolding dial_all
  multi_channel_handler channel_type configs =
      if channel_type == "session" || channel_type == "direct-tcpip"
      then after_accept net.accept channel_type configs
      else (rejected, [])
