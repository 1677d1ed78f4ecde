-- ===== src/Tunnel/Tests.antt =====
-- Examples of the recording of a tunnel.
use sshportal.Base.{ℕ, ◌≡◌, refl, some, List, [], ◌∷◌, ◌++◌, length, arith}
use sshportal.Models.{Bytes}
use sshportal.Tunnel.{little_endian, write_header}
use sshportal.Tunnel.Reader.{read_log}
use sshportal.Tunnel.RoundTrip.{Chunk, entries, write_all, send_all, read_log-write_all}

-- a channel that collects what it is sent, and answers its number
abbrev send : Bytes → Bytes → ℕ × Bytes
send b c = (length b, c ++ b)

abbrev time : ℕ
time = 1500000000123456789

abbrev chunks : List Chunk
chunks =
    record { host = b'a' ∷ []; now = time; written = b'h' ∷ b'i' ∷ [] }
    ∷ record { host = b'b' ∷ []; now = time; written = b'\n' ∷ [] }
    ∷ []

header_of_12 : write_header 4 time 5 ≡ 0 ∷ 47 ∷ 104 ∷ 89 ∷ 64 ∷ 226 ∷ 1 ∷ 0 ∷ 5 ∷ 0 ∷ 0 ∷ 0 ∷ []
unfolding write_header little_endian
header_of_12 = refl

read_log-write_all_example :
    (read_log 4 2 (write_all send 4 chunks ([], [])).0 ≡ some (entries chunks))
    × ((write_all send 4 chunks ([], [])).1 ≡ send_all send 4 chunks [])
read_log-write_all_example = read_log-write_all send 4 chunks [] (omega arith)
