-- ===== src/Telnet/Sending.antt =====
-- What CallTELNET of pkg/bastion/telnet.go sends to the host.
use mathlib.Core.List.{append_assoc, append-nil}
use sshportal.Base.{
  ℕ, true, ◌≡◌, refl, sym, ap, ◌∙◌, Option, none, List, [], ◌∷◌, ◌++◌, length, eqb, arith,
}
use sshportal.Models.{Bytes}
use sshportal.Telnet.{drop_cr, crlf, finished, send_lines, call_telnet}
use sshportal.Telnet.Lines.{joined, ended_lines, Short, stripped}
use sshportal.Telnet.Scanning.{scan-lines}

-- what is sent for lines
abbrev pub on_the_wire : List Bytes → Bytes
on_the_wire [] = []
on_the_wire (line ∷ lines) = (drop_cr line ++ crlf) ++ on_the_wire lines

module _ {E : Type 0} (long_write : Bytes → Bytes → ℕ × Option E × Bytes)
    (takes : (p w : Bytes) → long_write p w ≡ (length p, none, w ++ p)) where
  send_lines-all :
      (lines : List Bytes) (w : Bytes)
      → send_lines long_write (stripped lines) w ≡ (finished, w ++ on_the_wire lines)
  unfolding send_lines
  send_lines-all [] w = ap (λ r. (finished, r)) (sym (append-nil w))
  send_lines-all (line ∷ lines) w =
      let same : eqb (length (drop_cr line ++ crlf)) (length (drop_cr line ++ crlf)) ≡ true =
        ground arith in
      let t = takes (drop_cr line ++ crlf) w in
      rw (send_lines, ap (λ r. r.1) t, ap (λ r. r.0) t, same, ap (λ r. r.2) t)
        (send_lines-all lines (w ++ (drop_cr line ++ crlf))
          ∙ ap (λ r. (finished, r)) (append_assoc w (drop_cr line ++ crlf) (on_the_wire lines)))

  -- Whatever the pieces are that a client's bytes come in: to a host that takes all that is written,
  -- CallTELNET sends each line that the client has ended, in their order, without the '\r' in front of
  -- the '\n' if there is one, and with '\r' and '\n' after it, and returns without an error; what
  -- follows the last '\n' is never sent. This holds if each line, the last one included, is shorter
  -- than the Scanner's buffer.
  pub call_telnet-lines :
      (pieces : List Bytes)
      → Short [] (joined pieces)
      → call_telnet long_write pieces [] ≡ (finished, on_the_wire (ended_lines [] (joined pieces)))
  unfolding call_telnet
  call_telnet-lines pieces short =
      ap (λ l. send_lines long_write l []) (scan-lines [] pieces (λ m. (refl, refl)) short)
      ∙ send_lines-all (ended_lines [] (joined pieces)) []
