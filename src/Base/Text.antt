-- ===== src/Base/Text.antt =====
-- Texts: concatenation, and the functions of Go's `strings` that several parts use.
use Prim.Native.Nat.{ℕ}
use Prim.Native.Char.{Char, code}
use Prim.Native.String.{String, len, slice, ◌++◌ as append, [], ◌∷◌}
use mathlib.Core.Path.{◌≡◌, ap, ◌∙◌, refl}
use mathlib.Core.Bool.{Bool, false, ◌||◌}
use mathlib.Core.Logic.{◌≢◌, ◌↔◌}
use mathlib.Core.Option.{Option, none, some}
use text.Mathlib.Text.{◌==◌, starts_with}
use text.Mathlib.TextLemmas.{nil-append, cons-append}
use text.Mathlib.TextEquality.{eq_iff}
use native.Mathlib.Omega.{arith}
use mathlib.Core.List.{List, [] as nil, ◌∷◌ as cons}
use sshportal.Base.Tests.{eqb, if◌then◌else◌}

infixl 65 ◌<>◌
abbrev pub ◌<>◌ : String → String → String
s <> t = append s t

-- strings.Join
abbrev pub join : String → List String → String
join sep nil = ""
join sep (cons s nil) = s
join sep (cons s (cons t ts)) = s <> sep <> join sep (cons t ts)

pub differs : {s t : String} → (s == t) ≡ false → s ≢ t
differs {s} {t} h e = ground (arith, eq_iff s t)

pub equals_not : {s t : String} → s ≢ t → (s == t) ≡ false
equals_not {s} {t} h = ground (arith, eq_iff s t)

-- strings.Split at a one-byte separator
abbrev pub push_char : Char → List String → List String
push_char c nil = cons (c ∷ []) nil
push_char c (cons p ps) = cons (c ∷ p) ps

unfoldable pub split : ℕ → String → List String
split sep [] = cons "" nil
split sep (c ∷ s) =
    let rest = split sep s in if eqb (code c) sep then cons "" rest else push_char c rest

-- parts[0] and parts[1] of a split; `none` where the source would panic
abbrev pub first : List String → Option String
first nil = none
first (cons p _) = some p

abbrev pub second : List String → Option String
second nil = none
second (cons _ nil) = none
second (cons _ (cons q _)) = some q

-- no byte of the text is the separator
abbrev pub Lacks : ℕ → String → Type 0
Lacks sep [] = Unit
Lacks sep (c ∷ s) = (code c ≢ sep) × Lacks sep s

pub split-Lacks : (sep : ℕ) (s : String) → Lacks sep s → split sep s ≡ cons s nil
unfolding split
split-Lacks sep [] h = refl
split-Lacks sep (c ∷ s) h = ground (arith, split-Lacks sep s h.1)

-- The first two parts, where the first separator stands behind `s`.
pub split-append :
    (sep : ℕ) (s t : String) (c : Char)
    → Lacks sep s
    → code c ≡ sep
    → split sep (s <> (c ∷ t)) ≡ cons s (split sep t)
unfolding split
split-append sep [] t c h e = rw nil-append (ground arith)
split-append sep (d ∷ s) t c h e = rw cons-append (ground (arith, split-append sep s t c h.1 e))

pub split-ne-nil : (sep : ℕ) (s : String) → split sep s ≢ nil
unfolding split
split-ne-nil sep [] e = cc
split-ne-nil sep (c ∷ s) e = ground (arith, split-ne-nil sep s)

Lacks-of_split : (sep : ℕ) (s : String) → second (split sep s) ≡ none → Lacks sep s
unfolding split
Lacks-of_split sep [] h = tt
Lacks-of_split sep (c ∷ s) h =
    (ground (arith, split-ne-nil sep s), Lacks-of_split sep s (ground (arith, split-ne-nil sep s)))

-- A split has a second part just where the separator occurs.
pub second-split_iff : (sep : ℕ) (s : String) → (second (split sep s) ≡ none) ↔ Lacks sep s
second-split_iff sep s = (Lacks-of_split sep s, λ h. rw (split-Lacks sep s h))

pub second-cons :
    (p : String) (ps : List String) → ps ≢ nil → (q : String) × (second (cons p ps) ≡ some q)
second-cons p nil h = absurd (h refl)
second-cons p (cons q qs) h = (q, refl)

pub colon-append : (t : String) → ":" <> t ≡ (":" ∷ t)
colon-append t = cons-append ":" "" t ∙ ap (λ (u : String). ":" ∷ u) (nil-append t)

-- strings.Contains
unfoldable pub contains : String → String → Bool
contains t [] = t == ""
contains t (c ∷ s) = starts_with (c ∷ s) t || contains t s

-- strings.Replace(s, old, new, 1), for an `old` that is not empty
unfoldable pub replace_first : String → String → String → String
replace_first old new [] = []
replace_first old new (c ∷ s) =
    if starts_with (c ∷ s) old
    then new <> slice (c ∷ s) (len old) (len (c ∷ s))
    else c ∷ replace_first old new s
