-- ===== src/Session/Requests.antt =====
-- What the goroutines that pass requests on do, pkg/bastion/session.go, as an observer of the channels
-- and of the log sees it.
use mathlib.Core.List.{append_assoc, append-nil, map-append}
use sshportal.Base.{
  Bool, Option, none, some, List, [], ◌∷◌, ◌++◌, map, ◌≡◌, refl, sym, ap, ◌∙◌, inl, inr, Bool-cases,
  if◌then◌else◌,
}
use sshportal.Models.{Bytes}
use sshportal.Session.Pipe.{Side, lch, rch, same_side, failed, quit}
use sshportal.Session.Relay.{
  Request, Wires, other_side, requests_done, reported, is_command, relay_one, relay,
}

-- what is seen: a request sent to a side and what that side answers, a reply, bytes in the log
pub data Act : Type 0 where
  sent : Side → Request → Bool → Act
  replied : Request → Bool → Act
  logged : Bytes → Act

abbrev pub observed : {W E : Type 0} → Wires W E → Wires (W × List Act) E
observed wires = record {
  send =
      λ side r w. let (a, e, w') = wires.send side r w.0 in (a, e, (w', w.1 ++ sent side r a ∷ []));
  reply = λ r a w. let (e, w') = wires.reply r a w.0 in (e, (w', w.1 ++ replied r a ∷ []));
  log_write = λ b w. (wires.log_write b w.0, w.1 ++ logged b ∷ []);
}

abbrev pub sent_to : Side → List Act → List (Request × Bool)
sent_to side [] = []
sent_to side (sent to r a ∷ l) =
    if same_side side to then (r, a) ∷ sent_to side l else sent_to side l
sent_to side (_ ∷ l) = sent_to side l

abbrev pub replies : List Act → List (Request × Bool)
replies [] = []
replies (replied r a ∷ l) = (r, a) ∷ replies l
replies (_ ∷ l) = replies l

abbrev pub log_of : List Act → List Bytes
log_of [] = []
log_of (logged b ∷ l) = b ∷ log_of l
log_of (_ ∷ l) = log_of l

-- the payload of each command, on a line of its own
abbrev pub commands : Side → List Request → List Bytes
commands side [] = []
commands side (r ∷ rs) =
    if is_command side r then (r.payload ++ b'\n' ∷ []) ∷ commands side rs else commands side rs

-- the acts for a request with its answer
abbrev acts_of : Side → Request → Bool → List Act
acts_of side r a =
    sent (other_side side) r a
      ∷ (if is_command side r then logged (r.payload ++ b'\n' ∷ []) ∷ [] else [])
    ++ replied r a ∷ []

abbrev transcript : Side → List (Request × Bool) → List Act
transcript side [] = []
transcript side ((r, a) ∷ l) = acts_of side r a ++ transcript side l

sent_to-transcript :
    (side : Side) (l : List (Request × Bool))
    → (sent_to (other_side side) (transcript side l) ≡ l) × (sent_to side (transcript side l) ≡ [])
sent_to-transcript lch [] = (refl, refl)
sent_to-transcript rch [] = (refl, refl)
sent_to-transcript lch ((r, a) ∷ l) = elim (Bool-cases (is_command lch r)) [
  | inl h ↦ let (x, y) = sent_to-transcript lch l in (rw (h) (ap (λ m. (r, a) ∷ m) x), rw (h) y)
  | inr h ↦ let (x, y) = sent_to-transcript lch l in (rw (h) (ap (λ m. (r, a) ∷ m) x), rw (h) y)
]
sent_to-transcript rch ((r, a) ∷ l) =
    let (x, y) = sent_to-transcript rch l in (ap (λ m. (r, a) ∷ m) x, y)

replies-transcript : (side : Side) (l : List (Request × Bool)) → replies (transcript side l) ≡ l
replies-transcript side [] = refl
replies-transcript side ((r, a) ∷ l) = elim (Bool-cases (is_command side r)) [
  | inl h ↦ rw (h) (ap (λ m. (r, a) ∷ m) (replies-transcript side l))
  | inr h ↦ rw (h) (ap (λ m. (r, a) ∷ m) (replies-transcript side l))
]

log_of-transcript :
    (side : Side) (l : List (Request × Bool))
    → log_of (transcript side l) ≡ commands side (map (λ p. p.0) l)
log_of-transcript side [] = refl
log_of-transcript side ((r, a) ∷ l) = elim (Bool-cases (is_command side r)) [
  | inl h ↦ rw (h) (ap (λ m. (r.payload ++ b'\n' ∷ []) ∷ m) (log_of-transcript side l))
  | inr h ↦ rw (h) (log_of-transcript side l)
]

three : (l : List Act) (x y z : Act) → ((l ++ x ∷ []) ++ y ∷ []) ++ z ∷ [] ≡ l ++ x ∷ y ∷ z ∷ []
three l x y z = append_assoc (l ++ x ∷ []) (y ∷ []) (z ∷ []) ∙ append_assoc l (x ∷ []) (y ∷ z ∷ [])

errors_of :
    {E : Type 0} (x y : Option E)
    → (errors : List E) × (reported x ++ reported y ≡ map failed errors)
errors_of none none = ([], refl)
errors_of none (some e) = (e ∷ [], refl)
errors_of (some e) none = (e ∷ [], refl)
errors_of (some e) (some e') = (e ∷ e' ∷ [], refl)

module _ {W E : Type 0} (wires : Wires W E) (side : Side) where
  relay_one-acts :
      (r : Request) (w : W) (acts : List Act)
      → (a : Bool) × (errors : List E) × ((relay_one (observed wires) side r (w, acts)).1.1
          ≡ acts ++ acts_of side r a)
        × ((relay_one (observed wires) side r (w, acts)).0 ≡ map failed errors)
  unfolding relay_one
  relay_one-acts r w acts =
      let (errors, q) = errors_of (wires.send (other_side side) r w).1 _ in
      (
        (wires.send (other_side side) r w).0,
        errors,
        elim (Bool-cases (is_command side r)) [
          | inl h ↦ rw (h) (three acts _ _ _)
          | inr h ↦ rw (h) (append_assoc acts (_ ∷ []) (_ ∷ []))
        ],
        q,
      )

  relay-acts :
      (rs : List Request) (w : W) (acts : List Act)
      → (l : List (Request × Bool)) × (errors : List E) × (map (λ p. p.0) l ≡ rs)
        × ((relay (observed wires) side rs (w, acts)).1.1 ≡ acts ++ transcript side l)
        × ((relay (observed wires) side rs (w, acts)).0
            ≡ map failed errors ++ quit (requests_done side) ∷ [])
  unfolding relay
  relay-acts [] w acts = ([], [], refl, sym (append-nil acts), refl)
  relay-acts (r ∷ rs) w acts =
      let (a, e₁, done, reports) = relay_one-acts r w acts in
      let w' = (relay_one (observed wires) side r (w, acts)).1 in
      let (l, e₂, of_rs, later, end) = relay-acts rs w'.0 w'.1 in
      (
        (r, a) ∷ l,
        e₁ ++ e₂,
        ap (λ m. r ∷ m) of_rs,
        later
            ∙ ap (λ m. m ++ transcript side l) done
            ∙ append_assoc acts (acts_of side r a) (transcript side l),
        ap (λ m. m ++ (relay (observed wires) side rs (w'.0, w'.1)).0) reports
            ∙ ap (λ m. map failed e₁ ++ m) end
            ∙ sym (append_assoc (map failed e₁) (map failed e₂) (quit (requests_done side) ∷ []))
            ∙ ap (λ m. m ++ quit (requests_done side) ∷ []) (sym (map-append failed e₁ e₂)),
      )

  -- Of the requests of a side, which come until it has none left: each goes to the other side once,
  -- unchanged and in their order, and none goes back to the side that it came from; each is
  -- answered to that side, in that order and with what the other side answered to it; the log gets
  -- the payloads of the commands of a client, a line each, and nothing else; and the goroutine
  -- reports errors, or none, and then once that it is through.
  pub relay-observed :
      (rs : List Request) (w : W)
      → (map (λ p. p.0) (replies (relay (observed wires) side rs (w, [])).1.1) ≡ rs)
        × (sent_to (other_side side) (relay (observed wires) side rs (w, [])).1.1
            ≡ replies (relay (observed wires) side rs (w, [])).1.1)
        × (sent_to side (relay (observed wires) side rs (w, [])).1.1 ≡ [])
        × (log_of (relay (observed wires) side rs (w, [])).1.1 ≡ commands side rs)
        × ((errors : List E) × ((relay (observed wires) side rs (w, [])).0
              ≡ map failed errors ++ quit (requests_done side) ∷ []))
  relay-observed rs w =
      let (l, errors, of_rs, acts, end) = relay-acts rs w [] in
      let (to, back) = sent_to-transcript side l in
      rw (acts) (
        ap (map (λ p. p.0)) (replies-transcript side l) ∙ of_rs,
        to ∙ sym (replies-transcript side l),
        back,
        log_of-transcript side l ∙ ap (commands side) of_rs,
        (errors, end),
      )
