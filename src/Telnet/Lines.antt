-- ===== src/Telnet/Lines.antt =====
-- The lines of a client's bytes, for the Scanner of pkg/bastion/telnet.go.
use mathlib.Core.Path.{subst}
use mathlib.Core.List.{append_assoc, append-nil}
use sshportal.Base.{
  ℕ, suc, ◌<◌, false, ◌≡◌, refl, sym, ap, ◌∙◌, Option, none, some, List, [], ◌∷◌, ◌++◌, All, length,
  eqb, if◌then◌else◌, arith, inl, inr, Option-cases, Bool-cases,
}
use sshportal.Models.{Bytes}
use sshportal.Telnet.{cut, drop_cr, max_token}

abbrev pub joined : List Bytes → Bytes
joined [] = []
joined (l ∷ ls) = l ++ joined ls

-- the lines that are ended, without the '\n', after what is there of the first one; and the rest
abbrev pub ended_lines : Bytes → Bytes → List Bytes
ended_lines line [] = []
ended_lines line (b ∷ l) =
    if eqb b b'\n' then line ∷ ended_lines [] l else ended_lines (line ++ b ∷ []) l

abbrev pub unended : Bytes → Bytes → Bytes
unended line [] = line
unended line (b ∷ l) = if eqb b b'\n' then unended [] l else unended (line ++ b ∷ []) l

pub ended_lines-append :
    (line l m : Bytes)
    → ended_lines line (l ++ m) ≡ ended_lines line l ++ ended_lines (unended line l) m
ended_lines-append line [] m = refl
ended_lines-append line (b ∷ l) m = elim (Bool-cases (eqb b b'\n')) [
  | inl h ↦ rw (h) (ap (λ r. line ∷ r) (ended_lines-append [] l m))
  | inr h ↦ rw (h) (ended_lines-append (line ++ b ∷ []) l m)
]

abbrev pub after_cut : Bytes → Option (Bytes × Bytes) → List Bytes
after_cut line none = []
after_cut line (some p) = (line ++ p.0) ∷ ended_lines [] p.1

abbrev pub left_of : Bytes → Bytes → Option (Bytes × Bytes) → Bytes
left_of line l none = line ++ l
left_of line l (some p) = unended [] p.1

unended-append : (line l m : Bytes) → unended line (l ++ m) ≡ unended (unended line l) m
unended-append line [] m = refl
unended-append line (b ∷ l) m = elim (Bool-cases (eqb b b'\n')) [
  | inl h ↦ rw (h) (unended-append [] l m)
  | inr h ↦ rw (h) (unended-append (line ++ b ∷ []) l m)
]

-- the first line that `cut` finds is the first that is ended
pub cut-lines :
    (line l : Bytes)
    → (ended_lines line l ≡ after_cut line (cut l)) × (unended line l ≡ left_of line l (cut l))
unfolding cut
cut-lines line [] = (refl, sym (append-nil line))
cut-lines line (b ∷ l) = elim (Bool-cases (eqb b b'\n')) [
  | inl h ↦ rw (h) (ap (λ r. r ∷ ended_lines [] l) (sym (append-nil line)), refl)
  | inr h ↦ elim (Option-cases (cut l)) [
    | inl c ↦
        let (x, y) = cut-lines (line ++ b ∷ []) l in
        rw (h, c)
          (
            x ∙ ap (after_cut (line ++ b ∷ [])) c,
            y ∙ ap (left_of (line ++ b ∷ []) l) c ∙ append_assoc line (b ∷ []) l,
          )
    | inr (p, c) ↦
        let (x, y) = cut-lines (line ++ b ∷ []) l in
        rw (h, c)
          (
            x
                ∙ ap (after_cut (line ++ b ∷ [])) c
                ∙ ap (λ r. r ∷ ended_lines [] p.1) (append_assoc line (b ∷ []) p.0),
            y ∙ ap (left_of (line ++ b ∷ []) l) c,
          )
  ]
]

pub cut-shorter : (l : Bytes) (p : Bytes × Bytes) → cut l ≡ some p → length p.1 < length l
unfolding cut
cut-shorter [] p e = absurd cc
cut-shorter (b ∷ l) p e = elim (Bool-cases (eqb b b'\n')) [
  | inl h ↦
      let same : l ≡ p.1 = ground arith in subst (λ m. length m < suc (length l)) same (omega arith)
  | inr h ↦ elim (Option-cases (cut l)) [
    | inl c ↦ absurd (ground arith)
    | inr (q, c) ↦
        let less = cut-shorter l q c in
        let same : q.1 ≡ p.1 = ground arith in
        subst (λ m. length m < suc (length l)) same (omega (arith, less))
  ]
]

-- the lines that are ended and the rest fit into the buffer
abbrev pub IsShort : Bytes → Type 0
IsShort l = length l < max_token

abbrev pub Short : Bytes → Bytes → Type 0
Short line l = All IsShort (ended_lines line l ++ unended line l ∷ [])

-- bytes without the end of a line
abbrev pub Clean : Bytes → Type 0
Clean a =
    (m : Bytes) → (ended_lines [] (a ++ m) ≡ ended_lines a m) × (unended [] (a ++ m) ≡ unended a m)

Clean-snoc : (a : Bytes) (b : ℕ) → eqb b b'\n' ≡ false → Clean a → Clean (a ++ b ∷ [])
Clean-snoc a b h clean m =
    let (x, y) = clean (b ∷ m) in
    (
      ap (ended_lines []) (append_assoc a (b ∷ []) m) ∙ x ∙ rw (h) refl,
      ap (unended []) (append_assoc a (b ∷ []) m) ∙ y ∙ rw (h) refl,
    )

pub unended-Clean : (a l : Bytes) → Clean a → Clean (unended a l)
unended-Clean a [] clean = clean
unended-Clean a (b ∷ l) clean = elim (Bool-cases (eqb b b'\n')) [
  | inl h ↦ rw (h, Clean) (unended-Clean [] l (λ m. (refl, refl)))
  | inr h ↦ rw (h, Clean) (unended-Clean (a ++ b ∷ []) l (Clean-snoc a b h clean))
]

pub All-append : {A : Type 0} (P : A → Type 0) (l m : List A) → All P (l ++ m) → All P l × All P m
All-append P [] m h = (tt, h)
All-append P (x ∷ l) m h = let (a, b) = All-append P l m h.1 in ((h.0, a), b)

abbrev pub stripped : List Bytes → List Bytes
stripped [] = []
stripped (l ∷ ls) = drop_cr l ∷ stripped ls

pub stripped-append : (l m : List Bytes) → stripped (l ++ m) ≡ stripped l ++ stripped m
stripped-append [] m = refl
stripped-append (x ∷ l) m = ap (λ r. drop_cr x ∷ r) (stripped-append l m)

length-snoc : (a : Bytes) (b : ℕ) → length (a ++ b ∷ []) ≡ suc (length a)
length-snoc [] b = refl
length-snoc (x ∷ a) b = ap suc (length-snoc a b)

-- what is there of a line that is going to fit fits
pub Short-prefix : (a l : Bytes) → Short a l → IsShort a
Short-prefix a [] h = h.0
Short-prefix a (b ∷ l) h = elim (Bool-cases (eqb b b'\n')) [
  | inl e ↦
      let same : ended_lines a (b ∷ l) ++ unended a (b ∷ l) ∷ []
          ≡ a ∷ ended_lines [] l ++ unended [] l ∷ [] =
        rw (e) refl in
      (subst (All IsShort) same h).0
  | inr e ↦
      let same : ended_lines a (b ∷ l) ++ unended a (b ∷ l) ∷ []
          ≡ ended_lines (a ++ b ∷ []) l ++ unended (a ++ b ∷ []) l ∷ [] =
        rw (e) refl in
      let longer : length (a ++ b ∷ []) < max_token =
        Short-prefix (a ++ b ∷ []) l (subst (All IsShort) same h) in
      omega (arith, longer, length-snoc a b)
]

All-snoc : {A : Type 0} (P : A → Type 0) (l : List A) (x : A) → All P l → P x → All P (l ++ x ∷ [])
All-snoc P [] x h p = (p, tt)
All-snoc P (y ∷ l) x h p = (h.0, All-snoc P l x h.1 p)

-- what fits, fits up to the end of a piece and from there
pub Short-split :
    (a l m : Bytes) → Clean a → Short a (l ++ m) → Short [] (a ++ l) × Short (unended a l) m
Short-split a l m clean short =
    let parted : All IsShort
        (ended_lines a l ++ (ended_lines (unended a l) m ++ unended (unended a l) m ∷ [])) =
      subst (All IsShort)
        (append_assoc (ended_lines a l) (ended_lines (unended a l) m)
          (unended (unended a l) m ∷ []))
        (subst (λ (r : List Bytes × Bytes). All IsShort (r.0 ++ r.1 ∷ []))
          (ap (λ x. (x, unended a (l ++ m))) (ended_lines-append a l m)
            ∙ ap (λ (x : Bytes). (ended_lines a l ++ ended_lines (unended a l) m, x))
                (unended-append a l m))
          short) in
    let (lines, later) = All-append IsShort (ended_lines a l) _ parted in
    let here =
      All-snoc IsShort (ended_lines a l) (unended a l) lines (Short-prefix (unended a l) m later) in
    (
      subst (λ (r : List Bytes × Bytes). All IsShort (r.0 ++ r.1 ∷ []))
          (sym (
            ap (λ x. (x, unended [] (a ++ l))) (clean l).0
            ∙ ap (λ (x : Bytes). (ended_lines a l, x)) (clean l).1))
          here,
      later,
    )
