-- ===== src/Hosts/Addresses.antt =====
-- The address that is dialled.
use text.Mathlib.TextLemmas.{append-eq-nil_iff, append_assoc}
use sshportal.Base.{
  colon-append, ℕ, ◌^◌, ◌<◌, String, ◌<>◌, Lacks, second-split_iff, split, split-Lacks,
  split-append, ◌≡◌, ◌≢◌, refl, sym, ap, ◌∙◌, ◌↔◌, true, none, some, [], ◌∷◌, arith, ◌==◌, eq_iff,
  equals_not,
}
use sshportal.Models.{Host}
use sshportal.Strconv.Printing.{decimal, parse_uint-decimal, decimal-ne-nil, decimal-Lacks_colon}
use sshportal.Hosts.{UrlParser, hostname, port_or_default, port, dial_addr, first_part}

module _ (parse : UrlParser) (host : Host) where
  -- Port panics just on a host without a URL whose address has no colon.
  pub port_panics_iff :
      (port parse host ≡ none) ↔ ((host.url ≡ "") × (host.addr ≢ "") × Lacks b':' host.addr)
  unfolding port
  port_panics_iff =
      (λ e. panics e, λ h. rw (eq_of h.0, equals_not h.1, (second-split_iff b':' host.addr).1 h.2))
    where
      eq_of : host.url ≡ "" → (host.url == "") ≡ true
      eq_of = (eq_iff host.url "").1

      panics : port parse host ≡ none → (host.url ≡ "") × (host.addr ≢ "") × Lacks b':' host.addr
      panics e =
          ground (arith, eq_iff host.url "", eq_iff host.addr "", second-split_iff b':' host.addr)

split-addr :
    (name : String) (p : ℕ)
    → Lacks b':' name
    → split b':' (name <> ":" <> decimal p) ≡ name ∷ decimal p ∷ []
split-addr name p h =
    ap (split b':')
      (append_assoc name ":" (decimal p) ∙ ap (λ t. name <> t) (colon-append (decimal p)))
    ∙ split-append b':' name (decimal p) ":" h refl
    ∙ ap (λ l. name ∷ l) (split-Lacks b':' (decimal p) (decimal-Lacks_colon p))

-- A host without a URL is dialled at its address, if that is a name, a colon and a port as `%d`
-- prints it.
pub dial_addr-addr :
    (parse : UrlParser) (host : Host) (name : String) (p : ℕ)
    → host.url ≡ ""
    → host.addr ≡ name <> ":" <> decimal p
    → Lacks b':' name
    → p < 2 ^ 64
    → dial_addr parse host ≡ some host.addr
unfolding dial_addr port hostname port_or_default first_part
dial_addr-addr parse host name p no_url addr plain small = ground (
  arith,
  (eq_iff host.url "").1 no_url,
  equals_not full,
  parts,
  equals_not (decimal-ne-nil p),
  parse_uint-decimal p small,
)
  where
    full : host.addr ≢ ""
    full e =
        decimal-ne-nil p ((append-eq-nil_iff {p = name <> ":"} {q = decimal p}).0 (sym addr ∙ e)).1

    parts : split b':' host.addr ≡ name ∷ decimal p ∷ []
    parts = ap (split b':') addr ∙ split-addr name p plain
