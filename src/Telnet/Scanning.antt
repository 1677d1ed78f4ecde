-- ===== src/Telnet/Scanning.antt =====
-- What the Scanner of pkg/bastion/telnet.go finds in a client's bytes.
use mathlib.Core.Path.{subst}
use sshportal.Base.{
  ℕ, zero, suc, ◌+◌, ◌<◌, false, ◌≡◌, refl, sym, ap, ◌∙◌, none, some, List, [], ◌∷◌, ◌++◌, All,
  length, leb, arith, inl, inr, Option-cases,
}
use sshportal.Models.{Bytes}
use sshportal.Telnet.{
  cut, drop_cr, scanner_split_func, too_long, without_cr, max_token, scan_bytes, scan,
}
use sshportal.Telnet.Lines.{
  joined, ended_lines, unended, ended_lines-append, after_cut, left_of, cut-lines, cut-shorter,
  IsShort, Short, Clean, unended-Clean, All-append, stripped, stripped-append, Short-split,
}

not_long : (l : Bytes) → IsShort l → leb max_token (length l) ≡ false
not_long l h = ground arith

step_none :
    (fuel : ℕ) (bytes : Bytes)
    → too_long bytes ≡ false
    → scanner_split_func bytes false ≡ none
    → scan_bytes (suc fuel) bytes ≡ ([], some bytes)
unfolding scan_bytes
step_none fuel bytes fits split = rw (scan_bytes, fits, split) refl

step_some :
    (fuel : ℕ) (bytes : Bytes) (p : Bytes × Bytes)
    → too_long bytes ≡ false
    → scanner_split_func bytes false ≡ some p
    → scan_bytes (suc fuel) bytes ≡ (p.0 ∷ (scan_bytes fuel p.1).0, (scan_bytes fuel p.1).1)
unfolding scan_bytes
step_some fuel bytes p fits split = rw (scan_bytes, fits, split) refl

-- scan_bytes finds the lines that are ended, and leaves the rest
scan_bytes-lines :
    (fuel : ℕ) (bytes : Bytes)
    → length bytes < fuel
    → Short [] bytes
    → scan_bytes fuel bytes ≡ (stripped (ended_lines [] bytes), some (unended [] bytes))
unfolding scanner_split_func too_long without_cr
scan_bytes-lines zero bytes lt short = absurd (omega arith)
scan_bytes-lines (suc fuel) bytes lt short =
    let (x, y) = cut-lines [] bytes in
    let (lines, rest) = All-append IsShort (ended_lines [] bytes) (unended [] bytes ∷ []) short in
    elim (Option-cases (cut bytes)) [
      | inl c ↦
          let e₁ : ended_lines [] bytes ≡ [] = x ∙ ap (after_cut []) c in
          let e₂ : unended [] bytes ≡ bytes = y ∙ ap (left_of [] bytes) c in
          let fits = not_long bytes (subst IsShort e₂ rest.0) in
          step_none fuel bytes (rw (c) fits) (ap without_cr c) ∙ sym (rw (e₁, e₂) refl)
      | inr (p, c) ↦
          let e₁ : ended_lines [] bytes ≡ p.0 ∷ ended_lines [] p.1 = x ∙ ap (after_cut []) c in
          let e₂ : unended [] bytes ≡ unended [] p.1 = y ∙ ap (left_of [] bytes) c in
          let all : All IsShort ((p.0 ∷ ended_lines [] p.1) ++ unended [] p.1 ∷ []) =
            subst (λ l. All IsShort (l ++ unended [] p.1 ∷ [])) e₁
              (subst (λ r. All IsShort (ended_lines [] bytes ++ r ∷ [])) e₂ short) in
          let later = scan_bytes-lines fuel p.1 (omega (arith, cut-shorter bytes p c)) all.1 in
          step_some fuel bytes (drop_cr p.0, p.1) (rw (c) (not_long p.0 all.0)) (ap without_cr c)
          ∙ rw (e₁, e₂, later) refl
    ]

piece_found :
    (bytes piece left : Bytes) (pieces lines : List Bytes)
    → scan_bytes (length (bytes ++ piece) + 1) (bytes ++ piece) ≡ (lines, some left)
    → scan bytes (piece ∷ pieces) ≡ lines ++ scan left pieces
unfolding scan
piece_found bytes piece left pieces lines found =
    rw (scan, ap (λ r. r.1) found, ap (λ r. r.0) found) refl

-- whatever the pieces are that the bytes come in
pub scan-lines :
    (bytes : Bytes) (pieces : List Bytes)
    → Clean bytes
    → Short bytes (joined pieces)
    → scan bytes pieces ≡ stripped (ended_lines bytes (joined pieces))
unfolding scan scanner_split_func
scan-lines bytes [] clean short = refl
scan-lines bytes (piece ∷ pieces) clean short =
    let (here, later) = Short-split bytes piece (joined pieces) clean short in
    let found =
      scan_bytes-lines (length (bytes ++ piece) + 1) (bytes ++ piece) (omega arith) here in
    piece_found bytes piece (unended [] (bytes ++ piece)) pieces
      (stripped (ended_lines [] (bytes ++ piece))) found
    ∙ ap (λ (x : Bytes). stripped (ended_lines [] (bytes ++ piece)) ++ scan x pieces)
        (clean piece).1
    ∙ ap (λ x. stripped x ++ scan (unended bytes piece) pieces) (clean piece).0
    ∙ ap (λ x. stripped (ended_lines bytes piece) ++ x)
        (scan-lines (unended bytes piece) pieces (unended-Clean bytes piece clean) later)
    ∙ sym (
        stripped-append (ended_lines bytes piece)
          (ended_lines (unended bytes piece) (joined pieces)))
    ∙ ap stripped (sym (ended_lines-append bytes piece (joined pieces)))
