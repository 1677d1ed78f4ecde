-- ===== src/Session/Endings.antt =====
-- When the loop of `pipe` returns, and with what.
use mathlib.Core.List.{append-nil}
use sshportal.Base.{
  Bool, true, false, ◌&&◌, ◌||◌, none, some, List, [], ◌∷◌, ◌++◌, map, ◌≡◌, refl, sym, ap, ◌∙◌, inl,
  inr, arith, Bool-cases, if◌then◌else◌,
}
use sshportal.Session.Pipe.{
  Quit, lch_copied, rch_copied, lreqs_done, rreqs_done, Event, failed, quit, Flags, start, note,
  is_over, waiting, returned, run,
}

abbrev pub same : Quit → Quit → Bool
same lch_copied lch_copied = true
same rch_copied rch_copied = true
same lreqs_done lreqs_done = true
same rreqs_done rreqs_done = true
same _ _ = false

-- whether a message is among those given
abbrev pub came : Quit → List Quit → Bool
came q [] = false
came q (r ∷ rs) = same q r || came q rs

-- the flags after the messages, in terms of which came and not of their order
abbrev pub seen : Flags → List Quit → Flags
seen f qs = record {
  lch_eof = f.lch_eof || came lch_copied qs;
  rch_eof = f.rch_eof || came rch_copied qs;
  lch_closed = f.lch_closed || came lreqs_done qs;
  rch_closed = f.rch_closed || came rreqs_done qs;
}

pub seen-note : (q : Quit) (f : Flags) (qs : List Quit) → seen (note q f) qs ≡ seen f (q ∷ qs)
unfolding note
seen-note lch_copied f qs = ground arith
seen-note rch_copied f qs = ground arith
seen-note lreqs_done f qs = ground arith
seen-note rreqs_done f qs = ground arith

pub seen-nil : (f : Flags) → seen f [] ≡ f
seen-nil f = ground arith

is_over-seen : (f : Flags) (qs : List Quit) → is_over f ≡ true → is_over (seen f qs) ≡ true
unfolding is_over
is_over-seen f qs h = ground arith

-- what follows the messages: nothing, or an error of one of the goroutines
module _ {E : Type 0} (es : List (Event E)) where
  run-append :
      (f : Flags) (qs : List Quit)
      → is_over f ≡ false
      → (run f (map quit qs ++ es)).0
        ≡ (if is_over (seen f qs) then returned none else (run (seen f qs) es).0)
  unfolding run
  run-append f [] h = rw (seen-nil f, h) refl
  run-append f (q ∷ qs) h = elim (Bool-cases (is_over (note q f))) [
    | inl e ↦ rw (e, sym (seen-note q f qs), is_over-seen (note q f) qs e) refl
    | inr e ↦ rw (e, sym (seen-note q f qs)) (run-append (note q f) qs e)
  ]

-- In whatever order the goroutines report, and whatever they report twice: without an error the loop
-- returns none just when all four have reported and waits otherwise, with the flags of those that
-- have; an error makes it return that error, unless all four had reported before.
pub run_outcome :
    {E : Type 0} (qs : List Quit) (e : E) (es : List (Event E))
    → ((run {E = E} start (map quit qs)).0 ≡ (
        if came lch_copied qs && came rch_copied qs && came lreqs_done qs && came rreqs_done qs
        then returned none
        else waiting (seen start qs)))
      × ((run start (map quit qs ++ failed e ∷ es)).0 ≡ (
          if came lch_copied qs && came rch_copied qs && came lreqs_done qs && came rreqs_done qs
          then returned none
          else returned (some e)))
unfolding is_over run
run_outcome {E} qs e es = (
  ap (λ l. (run {E = E} start l).0) (sym (append-nil (map quit qs))) ∙ run-append [] start qs refl,
  run-append (failed e ∷ es) start qs refl,
)
