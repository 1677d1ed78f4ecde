-- ===== src/Shell/Pages.antt =====
-- The loop of `session ls` over pages of sessions.
use sshportal.Base.{
  ℕ, zero, suc, ◌+◌, ◌*◌, ◌≤◌, ◌<◌, String, ◌≡◌, refl, sym, ap, ◌∙◌, true, false, Option, some,
  List, [], ◌∷◌, ◌++◌, take, drop, filter, length, length-append, leb, inl, inr, arith, Bool-cases,
  Result-cases, ok, err,
}
use mathlib.Core.Path.{subst}
use sshportal.Models.{Session}
use sshportal.Shell.Store.{Gorm, in_states}
use sshportal.Shell.Sessions.{more_pages, all_pages}

module _ {A : Type 0} where
  take_nil : (n : ℕ) → take {A = A} n [] ≡ []
  take_nil zero = refl
  take_nil (suc n) = refl

  take-add : (m n : ℕ) (l : List A) → take m l ++ take n (drop m l) ≡ take (m + n) l
  take-add zero n l = let h : n ≡ 0 + n = omega arith in ap (λ k. take k l) h
  take-add (suc m) n [] = take_nil n ∙ sym (take_nil (suc m + n))
  take-add (suc m) n (x ∷ l) =
      let h : suc (m + n) ≡ suc m + n = omega arith in
      ap (λ r. x ∷ r) (take-add m n l) ∙ ap (λ k. take k (x ∷ l)) h

  take_short : (m : ℕ) (l : List A) → length (take m l) < m → take m l ≡ l
  take_short zero l h = absurd (omega arith)
  take_short (suc m) [] h = refl
  take_short (suc m) (x ∷ l) h = ap (λ r. x ∷ r) (take_short m l (omega arith))

  length-take-le : (m : ℕ) (l : List A) → length (take m l) ≤ length l
  length-take-le zero l = omega arith
  length-take-le (suc m) [] = omega arith
  length-take-le (suc m) (x ∷ l) = omega (arith, length-take-le m l)

-- a product that is not linear, for the arithmetic below
suc-mul : (limit factor : ℕ) → limit * suc factor ≡ limit * factor + limit
suc-mul limit factor = grind arith

enough : (limit n : ℕ) → 0 < limit → n < limit * (1 + n)
enough limit n h = grind arith

module _ {S : Type 0} (g : Gorm S) (limit : ℕ) (status : List String) (s : S) where
  -- the loop at a page that is not full, at a refused query, and at a full page
  stops :
      (fuel factor : ℕ) (found : List Session)
      → leb (limit * factor) (length found) ≡ false
      → more_pages g limit status (suc fuel) factor found s ≡ ok (some found)
  unfolding more_pages
  stops fuel factor found t = ground arith

  fails :
      (fuel factor : ℕ) (found : List Session) (x : String)
      → leb (limit * factor) (length found) ≡ true
      → g.session_page status limit (limit * factor) s ≡ err x
      → more_pages g limit status (suc fuel) factor found s ≡ err x
  unfolding more_pages
  fails fuel factor found x t q = ground arith

  goes_on :
      (fuel factor : ℕ) (found page : List Session)
      → leb (limit * factor) (length found) ≡ true
      → g.session_page status limit (limit * factor) s ≡ ok page
      → more_pages g limit status (suc fuel) factor found s
        ≡ more_pages g limit status fuel (suc factor) (found ++ page) s
  unfolding more_pages
  goes_on fuel factor found page t q = ground arith

  starts :
      (fuel : ℕ) (page : List Session)
      → g.session_page status limit 0 s ≡ ok page
      → all_pages g limit status fuel s ≡ more_pages g limit status fuel 1 page s
  unfolding all_pages
  starts fuel page q = ground arith

  -- the sessions to show
  abbrev pub shown : List Session
  shown = filter (in_states status) (g.sessions.rows s)

  longer :
      (found page : List Session) (factor : ℕ)
      → length found ≡ length (take (limit * factor) shown)
      → length page ≡ length (take limit (drop (limit * factor) shown))
      → length (found ++ page) ≡ length (take (limit * suc factor) shown)
  longer found page factor p q =
      let parts : length (found ++ page)
          ≡ length (take (limit * factor) shown)
            + length (take limit (drop (limit * factor) shown)) =
        omega (arith, length-append found page) in
      parts
      ∙ sym (length-append (take (limit * factor) shown) (take limit (drop (limit * factor) shown)))
      ∙ ap length (take-add (limit * factor) limit shown)
      ∙ ap (λ n. length (take n shown)) (sym (suc-mul limit factor))

  -- as many sessions as there are
  abbrev pub Complete : Option (List Session) → Type 0
  Complete r = (l : List Session) × (r ≡ some l) × (length l ≡ length shown)

  finished :
      (fuel factor : ℕ) (found : List Session) (r : Option (List Session))
      → leb (limit * factor) (length found) ≡ false
      → length found ≡ length (take (limit * factor) shown)
      → more_pages g limit status (suc fuel) factor found s ≡ ok r
      → Complete r
  finished fuel factor found r t p e =
      let q = sym (stops fuel factor found t) ∙ e in
      let short : length (take (limit * factor) shown) < limit * factor = ground (arith, p) in
      (found, cc, p ∙ ap length (take_short (limit * factor) shown short))

  more_pages_lem :
      (fuel factor : ℕ) (found : List Session) (r : Option (List Session))
      → length shown < limit * (factor + fuel)
      → length found ≡ length (take (limit * factor) shown)
      → more_pages g limit status (suc fuel) factor found s ≡ ok r
      → Complete r
  more_pages_lem zero factor found r h p e =
      let add : factor + 0 ≡ factor = omega arith in
      let h' = subst (λ n. length shown < limit * n) add h in
      let short : length found < limit * factor =
        omega (arith, length-take-le (limit * factor) shown) in
      finished 0 factor found r (ground (arith, short)) p e
  more_pages_lem (suc fuel) factor found r h p e =
      let add : factor + suc fuel ≡ suc factor + fuel = omega arith in
      elim (Bool-cases (leb (limit * factor) (length found))) [
        | inr t ↦ finished (suc fuel) factor found r t p e
        | inl t ↦ elim (Result-cases (g.session_page status limit (limit * factor) s)) [
          | inl (x, q) ↦ let bad = sym (fails (suc fuel) factor found x t q) ∙ e in absurd cc
          | inr (page, q) ↦
              more_pages_lem fuel (suc factor) (found ++ page) r
                (subst (λ n. length shown < limit * n) add h)
                (longer found page factor p (g.session_page_lem status limit (limit * factor) s q))
                (sym (goes_on (suc fuel) factor found page t q) ∙ e)
        ]
      ]

  -- The loop of `session ls` over pages ends, in whatever number of pages, if no query is refused, and
  -- then it has exactly as many sessions as the table has with one of the wanted states. The pages
  -- have at least one row, and no session is added in between.
  pub all_pages-Complete :
      (r : Option (List Session))
      → 0 < limit
      → all_pages g limit status (suc (length shown)) s ≡ ok r
      → Complete r
  unfolding all_pages
  all_pages-Complete r pos e = elim (Result-cases (g.session_page status limit 0 s)) [
    | inl (x, q) ↦ absurd (ground arith)
    | inr (page, q) ↦
        let one : limit ≡ limit * 1 = omega arith in
        let first : length page ≡ length (take (limit * 1) shown) =
          g.session_page_lem status limit 0 s q ∙ ap (λ n. length (take n shown)) one in
        more_pages_lem (length shown) 1 page r (enough limit (length shown) pos) first
          (sym (starts (suc (length shown)) page q) ∙ e)
  ]
