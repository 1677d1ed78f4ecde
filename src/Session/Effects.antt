-- ===== src/Session/Effects.antt =====
-- What `pipe` records, and what it does to the channels while it waits.
use mathlib.Core.Bool.{false≢true}
use sshportal.Base.{
  String, Bool, true, false, not, ◌&&◌, ◌||◌, List, [], ◌∷◌, ◌++◌, map, ◌≡◌, refl, sym, ap, ◌∙◌,
  inl, inr, arith, Bool-cases, ◌==◌, eq_iff,
}
use sshportal.Session.Pipe.{
  Side, lch, rch, same_side, copies, records, is_recorded, Quit, lch_copied, rch_copied, lreqs_done,
  rreqs_done, quit, Effect, close_write, close, Flags, start, note, forward, hang_up, is_over, run,
}
use sshportal.Session.Endings.{seen, seen-note, seen-nil}

-- Of the two streams of data, a session records what the client sends in the mode `input`, and what
-- the host sends in every other mode but `disabled`; a tunnel records both in every mode but
-- `disabled`.
pub recorded_sides :
    (mode : String)
    → (is_recorded lch mode (copies "session" mode) ≡ (mode == "input"))
      × (is_recorded rch mode (copies "session" mode)
          ≡ (not (mode == "input") && not (mode == "disabled")))
      × (is_recorded lch mode (copies "direct-tcpip" mode) ≡ not (mode == "disabled"))
      × (is_recorded rch mode (copies "direct-tcpip" mode) ≡ not (mode == "disabled"))
unfolding is_recorded copies records
recorded_sides mode = elim (Bool-cases (mode == "input")) [
  | inl e ↦ rw ((eq_iff mode "input").0 e) (refl, refl, refl, refl)
  | inr e ↦ elim (Bool-cases (mode == "disabled")) [
    | inl d ↦ rw (e, d) (refl, refl, refl, refl)
    | inr d ↦ rw (e, d) (refl, refl, refl, refl)
  ]
]

closes_by : Side → Effect → Bool
closes_by side (close_write _) = false
closes_by side (close other) = same_side side other

-- whether a side is closed by one of the effects
unfoldable pub closes : Side → List Effect → Bool
unfolding closes_by
closes side [] = false
closes side (x ∷ xs) = closes_by side x || closes side xs

closes-append :
    (side : Side) (xs ys : List Effect)
    → closes side (xs ++ ys) ≡ (closes side xs || closes side ys)
unfolding closes
closes-append side [] ys = refl
closes-append side (x ∷ xs) ys = ground (arith, closes-append side xs ys)

-- a side is hung up on when the other has sent all that it will and this one has not
abbrev pub is_spent : Side → Flags → Bool
is_spent rch f = f.lch_eof && f.lch_closed
is_spent lch f = f.rch_eof && f.rch_closed

abbrev pub is_open : Side → Flags → Bool
is_open rch f = not f.rch_closed
is_open lch f = not f.lch_closed

step_closes :
    (side : Side) (q : Quit) (f : Flags)
    → closes side (forward q ++ hang_up f) ≡ (is_spent side f && is_open side f)
unfolding closes forward hang_up
step_closes lch lch_copied f = ground arith
step_closes lch rch_copied f = ground arith
step_closes lch lreqs_done f = ground arith
step_closes lch rreqs_done f = ground arith
step_closes rch lch_copied f = ground arith
step_closes rch rch_copied f = ground arith
step_closes rch lreqs_done f = ground arith
step_closes rch rreqs_done f = ground arith

spent-seen :
    (side : Side) (f : Flags) (qs : List Quit)
    → is_spent side f ≡ true
    → is_spent side (seen f qs) ≡ true
spent-seen lch f qs h = ground arith
spent-seen rch f qs h = ground arith

is_over-seen-false : (f : Flags) (qs : List Quit) → is_over (seen f qs) ≡ false → is_over f ≡ false
unfolding is_over
is_over-seen-false f qs h = ground arith

module _ (E : Type 0) (side : Side) where
  closes-run :
      (f : Flags) (q : Quit) (qs : List Quit)
      → is_over (note q f) ≡ false
      → closes side (run {E = E} f (map quit (q ∷ qs))).1 ≡ (
          (is_spent side (note q f) && is_open side (note q f))
          || closes side (run {E = E} (note q f) (map quit qs)).1)
  unfolding run
  closes-run f q qs h = rw h (
      closes-append side (forward q ++ hang_up (note q f)) _
      ∙ ap (λ b. b || closes side (run {E = E} (note q f) (map quit qs)).1)
          (step_closes side q (note q f)))

  note-not_over :
      (f : Flags) (q : Quit) (qs : List Quit)
      → is_over (seen f (q ∷ qs)) ≡ false
      → is_over (note q f) ≡ false
  note-not_over f q qs w = is_over-seen-false (note q f) qs (ap is_over (seen-note q f qs) ∙ w)

  run-closes_sound :
      (f : Flags) (qs : List Quit)
      → is_over (seen f qs) ≡ false
      → closes side (run {E = E} f (map quit qs)).1 ≡ true
      → is_spent side (seen f qs) ≡ true
  run-closes_sound f [] w h = unfold run closes in cc h
  run-closes_sound f (q ∷ qs) w h =
      elim (Bool-cases (is_spent side (note q f) && is_open side (note q f))) [
        | inl e ↦
            ap (is_spent side) (sym (seen-note q f qs))
            ∙ spent-seen side (note q f) qs (ground arith)
        | inr e ↦
            ap (is_spent side) (sym (seen-note q f qs))
            ∙ run-closes_sound (note q f) qs (ap is_over (seen-note q f qs) ∙ w)
                (ground (arith, closes-run f q qs (note-not_over f q qs w)))
      ]

  run-closes_complete :
      (f : Flags) (qs : List Quit)
      → is_over (seen f qs) ≡ false
      → (is_spent side f && is_open side f) ≡ false
      → (is_spent side (seen f qs) && is_open side (seen f qs)) ≡ true
      → closes side (run {E = E} f (map quit qs)).1 ≡ true
  run-closes_complete f [] w n h =
      absurd
        (false≢true (sym n ∙ ap (λ g. is_spent side g && is_open side g) (sym (seen-nil f)) ∙ h))
  run-closes_complete f (q ∷ qs) w n h =
      elim (Bool-cases (is_spent side (note q f) && is_open side (note q f))) [
        | inl e ↦ ground (arith, closes-run f q qs (note-not_over f q qs w))
        | inr e ↦ ground (
          arith,
          closes-run f q qs (note-not_over f q qs w),
          run-closes_complete (note q f) qs (ap is_over (seen-note q f qs) ∙ w) e
              (ap (λ g. is_spent side g && is_open side g) (seen-note q f qs) ∙ h),
        )
      ]

implies : (a b : Bool) → (a ≡ true → b ≡ true) → (not a || b) ≡ true
implies true b h = h refl
implies false b h = refl

-- While the loop waits: if it has closed a channel, the other side has sent all its data and all its
-- requests; and if the other side has, while this one still has requests, it has closed it.
pub run_hangs_up :
    (E : Type 0) (side : Side) (qs : List Quit)
    → is_over (seen start qs) ≡ false
    → ((not (closes side (run {E = E} start (map quit qs)).1) || is_spent side (seen start qs))
        ≡ true)
      × ((not (is_spent side (seen start qs) && is_open side (seen start qs))
            || closes side (run {E = E} start (map quit qs)).1)
          ≡ true)
run_hangs_up E side qs w = (
  implies _ _ (run-closes_sound E side start qs w),
  implies _ _ (run-closes_complete E side start qs w (never side)),
)
  where
    never : (side : Side) → (is_spent side start && is_open side start) ≡ false
    never lch = refl
    never rch = refl
