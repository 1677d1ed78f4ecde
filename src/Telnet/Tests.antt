-- ===== src/Telnet/Tests.antt =====
-- An example of the bridge.
use sshportal.Base.{ℕ, String, ◌≡◌, refl, Option, none, List, [], ◌∷◌, ◌++◌, length, arith}
use sshportal.Models.{Bytes}
use sshportal.Telnet.{drop_cr, finished, call_telnet}
use sshportal.Telnet.Lines.{joined, ended_lines}
use sshportal.Telnet.Sending.{on_the_wire, call_telnet-lines}

-- `ls` and `id` in pieces, and a command that is not ended
abbrev pieces : List Bytes
pieces = (b'l' ∷ []) ∷ (b's' ∷ b'\r' ∷ b'\n' ∷ b'i' ∷ []) ∷ (b'd' ∷ b'\n' ∷ b'w' ∷ []) ∷ []

abbrev write_all : Bytes → Bytes → ℕ × Option String × Bytes
write_all p w = (length p, none, w ++ p)

call_telnet-lines_example :
    call_telnet write_all pieces [] ≡ (finished, on_the_wire (ended_lines [] (joined pieces)))
call_telnet-lines_example =
    call_telnet-lines write_all (λ p w. refl) pieces (omega arith, (omega arith, (omega arith, tt)))

wire :
    on_the_wire (ended_lines [] (joined pieces))
    ≡ b'l' ∷ b's' ∷ b'\r' ∷ b'\n' ∷ b'i' ∷ b'd' ∷ b'\r' ∷ b'\n' ∷ []
unfolding drop_cr
wire = refl
