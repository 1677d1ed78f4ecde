-- ===== src/Session/Chain.antt =====
-- The connections that multiChannelHandler makes, and what becomes of the session.
use mathlib.Core.Path.{subst}
use sshportal.Base.{
  String, ◌≡◌, ◌≢◌, refl, sym, ap, ◌∙◌, Bool, true, false, ◌||◌, Option, none, some, List, [], ◌∷◌,
  ◌==◌, inl, inr, arith, Result-cases, Result, ok, err, if◌then◌else◌,
}
use sshportal.Channel.{SessionConfig}
use sshportal.Session.Hops.{
  Network, Reached, reached, lost, rejected, piped, last_config, next_client, dial_all, opened,
  data_read, arrived, after_accept, multi_channel_handler,
}

module _ {E C K A : Type 0} (net : Network E C K A) where
  -- one client for each configuration, the first dialled from here and each other through the one
  -- before it, and the last of them
  abbrev pub Chained : Option C → List SessionConfig → List C → Option C → Type 0
  Chained from [] [] to = to ≡ from
  Chained none (c ∷ cs) (k ∷ ks) to =
      (net.dial c.addr c.client_config ≡ ok k) × Chained (some k) cs ks to
  Chained (some client) (c ∷ cs) (k ∷ ks) to =
      ((conn : K) × (net.dial_through client c.addr ≡ ok conn)
        × (net.handshake conn c.addr c.client_config ≡ ok k))
      × Chained (some k) cs ks to
  Chained from _ _ to = ⊥

  extended :
      (from : Option C) (c : SessionConfig) (cs : List SessionConfig) (k : C) (ks : List C)
      (to : Option C)
      → next_client net from c ≡ ok k
      → Chained (some k) cs ks to
      → Chained from (c ∷ cs) (k ∷ ks) to
  unfolding next_client
  extended none c cs k ks to q rest = (q, rest)
  extended (some client) c cs k ks to q rest =
      elim (Result-cases (net.dial_through client c.addr)) [
        | inl (x, d) ↦ absurd (ground arith)
        | inr (conn, d) ↦ ((conn, d, ground arith), rest)
      ]

  stepped :
      (c : SessionConfig) (cs : List SessionConfig) (from : Option C) (k : C)
      → next_client net from c ≡ ok k
      → dial_all net (c ∷ cs) from
        ≡ ((dial_all net cs (some k)).0, k ∷ (dial_all net cs (some k)).1)
  unfolding dial_all
  stepped c cs from k q = rw (q, dial_all) refl

  broken :
      (c : SessionConfig) (cs : List SessionConfig) (from to : Option C) (x : E)
      → next_client net from c ≡ err x
      → (dial_all net (c ∷ cs) from).0 ≢ reached to
  unfolding dial_all
  broken c cs from to x q = λ e. absurd (ground arith)

  pub dial_all-Chained :
      (configs : List SessionConfig) (from to : Option C)
      → (dial_all net configs from).0 ≡ reached to
      → Chained from configs (dial_all net configs from).1 to
  unfolding dial_all
  dial_all-Chained [] from to e = cc
  dial_all-Chained (c ∷ cs) from to e = elim (Result-cases (next_client net from c)) [
    | inl (x, q) ↦ absurd (broken c cs from to x q e)
    | inr (k, q) ↦
        let s = stepped c cs from k q in
        let later = dial_all-Chained cs (some k) to (sym (ap (λ r. r.0) s) ∙ e) in
        subst (λ r. Chained from (c ∷ cs) r.1 to) (sym s)
          (extended from c cs k (dial_all net cs (some k)).1 to q later)
  ]

  opened-piped :
      (r : Result E A) (o : Option SessionConfig) (a : A) (config : SessionConfig)
      → opened net r o ≡ piped a config
      → (r ≡ ok a) × (o ≡ some config)
  opened-piped (err x) o a config e = absurd (ground arith)
  opened-piped (ok b) none a config e = absurd (ground arith)
  opened-piped (ok b) (some c) a config e = ground arith

  data_read-piped :
      (o : Option E) (channel_type : String) (client : C) (configs : List SessionConfig) (a : A)
      (config : SessionConfig)
      → data_read net o channel_type client configs ≡ piped a config
      → (net.open_channel client channel_type ≡ ok a) × (last_config configs ≡ some config)
  data_read-piped (some x) channel_type client configs a config e = absurd (ground arith)
  data_read-piped none channel_type client configs a config e =
      opened-piped (net.open_channel client channel_type) (last_config configs) a config e

  arrived-piped :
      (r : Reached E C) (channel_type : String) (configs : List SessionConfig) (a : A)
      (config : SessionConfig)
      → arrived net r channel_type configs ≡ piped a config
      → (client : C) × (r ≡ reached (some client))
        × (net.open_channel client channel_type ≡ ok a)
        × (last_config configs ≡ some config)
  arrived-piped (lost x closed) channel_type configs a config e = absurd (ground arith)
  arrived-piped (reached none) channel_type configs a config e = absurd (ground arith)
  arrived-piped (reached (some client)) channel_type configs a config e =
      let (by, at) =
        data_read-piped (if channel_type == "direct-tcpip" then net.unmarshal else none)
          channel_type client configs a config e in
      (client, refl, by, at)

  after_accept-piped :
      (o : Option E) (channel_type : String) (configs : List SessionConfig) (a : A)
      (config : SessionConfig)
      → (after_accept net o channel_type configs).0 ≡ piped a config
      → (client : C) × Chained none configs
          (after_accept net o channel_type configs).1
          (some client)
        × (net.open_channel client channel_type ≡ ok a)
        × (last_config configs ≡ some config)
  after_accept-piped (some x) channel_type configs a config e = absurd (ground arith)
  after_accept-piped none channel_type configs a config e =
      let (client, at, by, to) =
        arrived-piped (dial_all net configs none).0 channel_type configs a config e in
      (client, dial_all-Chained configs none (some client) at, by, to)

  taken-piped :
      (b : Bool) (channel_type : String) (configs : List SessionConfig) (a : A)
      (config : SessionConfig)
      → (if b then after_accept net net.accept channel_type configs else (rejected, [])).0
        ≡ piped a config
      → (client : C) × Chained none configs
          (if b then after_accept net net.accept channel_type configs else (rejected, [])).1
          (some client)
        × (net.open_channel client channel_type ≡ ok a)
        × (last_config configs ≡ some config)
  taken-piped false channel_type configs a config e = absurd (ground arith)
  taken-piped true channel_type configs a config e =
      after_accept-piped net.accept channel_type configs a config e

  -- Where multiChannelHandler comes to forwarding, it has one client for each configuration, the first
  -- dialled directly and each other through the one before it; the channel is opened by the last
  -- client, and is recorded as the last configuration says.
  pub piped-Chained :
      (channel_type : String) (configs : List SessionConfig) (a : A) (config : SessionConfig)
      → (multi_channel_handler net channel_type configs).0 ≡ piped a config
      → (client : C) × Chained none configs
          (multi_channel_handler net channel_type configs).1
          (some client)
        × (net.open_channel client channel_type ≡ ok a)
        × (last_config configs ≡ some config)
  unfolding multi_channel_handler
  piped-Chained channel_type configs a config e =
      taken-piped (channel_type == "session" || channel_type == "direct-tcpip") channel_type configs
        a config e
