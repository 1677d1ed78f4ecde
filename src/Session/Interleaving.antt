-- ===== src/Session/Interleaving.antt =====
-- The goroutines of `pipe`, pkg/bastion/session.go, in every order in which they may send on `errch`
-- and `quit`, and in every order in which `select` may choose between these two channels.
use sshportal.Base.{
  String, Bool, true, false, ◌||◌, Option, List, [], ◌∷◌, ◌++◌, map, ◌≡◌, refl, sym, ap, ◌∙◌, ◌⊎◌,
  inl, inr, arith,
}
use sshportal.Session.Pipe.{
  Side, lch, rch, Quit, lch_copied, rch_copied, lreqs_done, rreqs_done, Event, failed, quit,
  returned,
}
use sshportal.Session.Endings.{came, same}
use sshportal.Session.Relay.{Request, Wires, requests_done, relay_one, relay}
use sshportal.Session.Start.{Naming, Files, pipe}
use sshportal.Session.Settling.{Ended, pipe-Returns}

-- two sequences in one, each in its order
pub data Shuffle {A : Type 0} : List A → List A → List A → Type 0 where
  nothing : Shuffle [] [] []
  left : {l m n : List A} (x : A) → Shuffle l m n → Shuffle (x ∷ l) m (x ∷ n)
  right : {l m n : List A} (x : A) → Shuffle l m n → Shuffle l (x ∷ m) (x ∷ n)

-- what of it goes to the channel `errch`, and what to `quit`
abbrev pub on_errch : List (Event String) → List (Event String)
on_errch [] = []
on_errch (failed e ∷ es) = failed e ∷ on_errch es
on_errch (quit q ∷ es) = on_errch es

abbrev pub on_quit : List (Event String) → List (Event String)
on_quit [] = []
on_quit (failed e ∷ es) = on_quit es
on_quit (quit q ∷ es) = quit q ∷ on_quit es

module _ (q : Quit) where
  -- a message is among the events
  abbrev sends : List (Event String) → Bool
  sends [] = false
  sends (failed e ∷ es) = sends es
  sends (quit r ∷ es) = same q r || sends es

  sends-append : (l m : List (Event String)) → sends (l ++ m) ≡ (sends l || sends m)
  sends-append [] m = refl
  sends-append (failed e ∷ l) m = sends-append l m
  sends-append (quit r ∷ l) m = ground (arith, sends-append l m)

  sends-Shuffle : {l m n : List (Event String)} → Shuffle l m n → sends n ≡ (sends l || sends m)
  sends-Shuffle nothing = refl
  sends-Shuffle (left (failed e) s) = sends-Shuffle s
  sends-Shuffle (left (quit r) s) = ground (arith, sends-Shuffle s)
  sends-Shuffle (right (failed e) s) = sends-Shuffle s
  sends-Shuffle (right (quit r) s) = ground (arith, sends-Shuffle s)

  sends-on_quit : (l : List (Event String)) → sends (on_quit l) ≡ sends l
  sends-on_quit [] = refl
  sends-on_quit (failed e ∷ l) = sends-on_quit l
  sends-on_quit (quit r ∷ l) = ap (λ b. same q r || b) (sends-on_quit l)

  came-sends : (qs : List Quit) → sends (map quit qs) ≡ came q qs
  came-sends [] = refl
  came-sends (r ∷ qs) = ap (λ b. same q r || b) (came-sends qs)

-- the events are messages only, or there is a first error
abbrev Parts : List (Event String) → Type 0
Parts es =
    (qs : List Quit) × ((es ≡ map quit qs)
      ⊎ ((e : String) × (es' : List (Event String)) × (es ≡ map quit qs ++ failed e ∷ es')))

parts : (es : List (Event String)) → Parts es
parts [] = ([], inl refl)
parts (failed e ∷ es) = ([], inr (e, es, refl))
parts (quit q ∷ es) =
    let (qs, p) = parts es in
    elim p [
      | inl h ↦ (q ∷ qs, inl (ap (λ l. quit q ∷ l) h))
      | inr (e, es', h) ↦ (q ∷ qs, inr (e, es', ap (λ l. quit q ∷ l) h))
    ]

ended :
    (es : List (Event String))
    → sends lch_copied es ≡ true
    → sends rch_copied es ≡ true
    → sends lreqs_done es ≡ true
    → sends rreqs_done es ≡ true
    → Ended es
ended es a b c d =
    let (qs, p) = parts es in
    elim p [
      | inl h ↦
          let here : (q : Quit) → sends q es ≡ true → came q qs ≡ true =
            λ q t. sym (came-sends q qs) ∙ ap (sends q) (sym h) ∙ t in
          (
            qs,
            inl (
              h,
              rw (here lch_copied a, here rch_copied b, here lreqs_done c, here rreqs_done d) refl,
            ),
          )
      | inr (e, es', h) ↦ (qs, inr (e, es', h))
    ]

or_true : (b : Bool) → (b || true) ≡ true
or_true false = refl
or_true true = refl

true_or : (b c : Bool) → b ≡ true → (b || c) ≡ true
true_or b c h = ground arith

module _ {W : Type 0} (wires : Wires W String) where
  relay-sends :
      (side : Side) (rs : List Request) (w : W)
      → sends (requests_done side) (relay wires side rs w).0 ≡ true
  unfolding relay
  relay-sends lch [] w = refl
  relay-sends rch [] w = refl
  relay-sends side (r ∷ rs) w =
      let one = relay_one wires side r w in
      sends-append (requests_done side) one.0 (relay wires side rs one.1).0
      ∙ ap (λ b. sends (requests_done side) one.0 || b) (relay-sends side rs one.1)
      ∙ or_true (sends (requests_done side) one.0)

  quits-relay :
      (side : Side) (rs : List Request) (w : W)
      → sends (requests_done side) (on_quit (relay wires side rs w).0) ≡ true
  quits-relay side rs w =
      sends-on_quit (requests_done side) (relay wires side rs w).0 ∙ relay-sends side rs w

  -- However the four goroutines are scheduled: if each copy comes to its end, and the requests of
  -- both sides come to theirs, then in whatever order the errors arrive on the one channel and the
  -- messages on the other, each goroutine keeping its own order on each channel, and in whatever
  -- order `select` receives from the two channels, so that the message of a goroutine may be received
  -- before an error that it sent earlier, `pipe` returns, with an error or none, whatever
  -- the channels answer to the requests, the type of the channel, the logging mode and the log file.
  pub shuffled-Ended :
      (files : Files String) (naming : Naming) (logs_location channel_type mode : String)
      (rs rs' : List Request) (w w' : W) (errors copied relayed quits es : List (Event String))
      → Shuffle (on_errch (relay wires lch rs w).0) (on_errch (relay wires rch rs' w').0) errors
      → Shuffle (quit lch_copied ∷ []) (quit rch_copied ∷ []) copied
      → Shuffle (on_quit (relay wires lch rs w).0) (on_quit (relay wires rch rs' w').0) relayed
      → Shuffle copied relayed quits
      → Shuffle errors quits es
      → Ended es
        × ((e : Option String) × ((pipe files naming logs_location channel_type mode es).0
              ≡ returned e))
  shuffled-Ended files naming logs_location channel_type mode rs rs' w w' errors copied relayed
        quits es _ c r both all =
      let of_quits : (q : Quit) → sends q quits ≡ true → sends q es ≡ true =
        λ q t. sends-Shuffle q all ∙ ap (λ b. sends q errors || b) t ∙ or_true (sends q errors) in
      let of_copied : (q : Quit) → sends q copied ≡ true → sends q es ≡ true =
        λ q t. of_quits q (sends-Shuffle q both ∙ true_or (sends q copied) (sends q relayed) t) in
      let of_relayed : (q : Quit) → sends q relayed ≡ true → sends q es ≡ true = λ q t.
        of_quits q
          (sends-Shuffle q both ∙ ap (λ b. sends q copied || b) t ∙ or_true (sends q copied)) in
      let end : Ended es =
        ended es (of_copied lch_copied (sends-Shuffle lch_copied c))
          (of_copied rch_copied (sends-Shuffle rch_copied c))
          (of_relayed lreqs_done (
            sends-Shuffle lreqs_done r
            ∙ true_or (sends lreqs_done (on_quit (relay wires lch rs w).0))
                (sends lreqs_done (on_quit (relay wires rch rs' w').0)) (quits-relay lch rs w)))
          (of_relayed rreqs_done (
            sends-Shuffle rreqs_done r
            ∙ ap (λ b. sends rreqs_done (on_quit (relay wires lch rs w).0) || b)
                (quits-relay rch rs' w')
            ∙ or_true (sends rreqs_done (on_quit (relay wires lch rs w).0)))) in
      (end, pipe-Returns files naming logs_location channel_type mode es end)
