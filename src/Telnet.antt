-- ===== src/Telnet.antt =====
-- The telnet bridge, pkg/bastion/telnet.go. The connections are parameters, as is the LongWrite of
-- go-oi; the Scanner of Go's bufio reads the client in pieces, as they come.
pub mod Lines
pub mod Scanning
pub mod Sending
mod Tests
use sshportal.Base.{
  ℕ, zero, suc, ◌+◌, String, Bool, true, false, Option, none, some, List, [], ◌∷◌, ◌++◌, length,
  leb, eqb, if◌then◌else◌,
}
use sshportal.Models.{Bytes, Host}
use sshportal.Hosts.{UrlParser, dial_addr}

-- what precedes the first '\n', and what follows it
unfoldable pub cut : Bytes → Option (Bytes × Bytes)
cut [] = none
cut (b ∷ l) =
    let rest = cut l in
    if eqb b b'\n' then some ([], l) else elim rest [ none ↦ none | some p ↦ some (b ∷ p.0, p.1) ]

-- the '\r' at the end of a line
unfoldable pub drop_cr : Bytes → Bytes
drop_cr [] = []
drop_cr (b ∷ []) = if eqb b b'\r' then [] else b ∷ []
drop_cr (b ∷ c ∷ l) = b ∷ drop_cr (c ∷ l)

unfoldable pub without_cr : Option (Bytes × Bytes) → Option (Bytes × Bytes)
unfolding drop_cr
without_cr none = none
without_cr (some p) = some (drop_cr p.0, p.1)

-- a line, and what is left of the bytes; `none` asks for more. ScanLines is called before the end
-- only.
unfoldable pub scanner_split_func : Bytes → Bool → Option (Bytes × Bytes)
unfolding cut without_cr
scanner_split_func bytes true = none
scanner_split_func bytes false = without_cr (cut bytes)

-- MaxScanTokenSize, the largest size of the Scanner's buffer
abbrev pub max_token : ℕ
max_token = 65536

-- the buffer is full before a line is ended
unfoldable pub too_long : Bytes → Bool
unfolding cut
too_long bytes = leb max_token (length (elim (cut bytes) [ none ↦ bytes | some p ↦ p.0 ]))

-- the lines that Scan finds in the bytes that are there, and what is left; `none` if a line is too
-- long, which ends the scan. There are no more lines than bytes.
unfoldable pub scan_bytes : ℕ → Bytes → List Bytes × Option Bytes
unfolding scanner_split_func too_long
scan_bytes zero bytes = ([], some bytes)
scan_bytes (suc fuel) bytes = elim (too_long bytes) [
  | true ↦ ([], none)
  | false ↦ elim (scanner_split_func bytes false) [
    | none ↦ ([], some bytes)
    | some p ↦ let rest = scan_bytes fuel p.1 in (p.0 ∷ rest.0, rest.1)
  ]
]

-- up to the end of what the client sends, where nothing more is found
unfoldable pub scan : Bytes → List Bytes → List Bytes
unfolding scan_bytes
scan bytes [] = elim (scanner_split_func bytes true) [ none ↦ [] | some p ↦ p.0 ∷ [] ]
scan bytes (piece ∷ pieces) =
    let found = scan_bytes (length (bytes ++ piece) + 1) (bytes ++ piece) in
    elim found.1 [ none ↦ found.0 | some left ↦ found.0 ++ scan left pieces ]

abbrev pub crlf : Bytes
crlf = b'\r' ∷ b'\n' ∷ []

pub data Called (E : Type 0) : Type 0 where
  finished : Called E
  broken : E → Called E
  -- with the number of bytes that are written, and the number that should be
  short : ℕ → ℕ → Called E

module _ {W E : Type 0} (long_write : Bytes → W → ℕ × Option E × W) where
  -- the loop over the lines
  unfoldable pub send_lines : List Bytes → W → Called E × W
  send_lines [] w = (finished, w)
  send_lines (line ∷ lines) w =
      let p = line ++ crlf in
      let (n, e, w') = long_write p w in
      let rest = send_lines lines w' in
      elim e [
        | some x ↦ (broken x, w')
        | none ↦ if eqb (length p) n then rest else (short (length p) n, w')
      ]

  -- CallTELNET, from the client to the host
  unfoldable pub call_telnet : List Bytes → W → Called E × W
  unfolding scan send_lines
  call_telnet pieces w = send_lines (scan [] pieces) w

-- one Read of a byte from the host
pub data Read : Type 0 where
  byte : ℕ → Read
  nothing : Read
  ended : Read

-- the goroutine from the host to the client; the error of a write is printed
unfoldable pub copy_back : {W E : Type 0} → (Bytes → W → ℕ × Option E × W) → List Read → W → W
copy_back long_write [] w = w
copy_back long_write (nothing ∷ reads) w = copy_back long_write reads w
copy_back long_write (ended ∷ reads) w = w
copy_back long_write (byte b ∷ reads) w = copy_back long_write reads (long_write (b ∷ []) w).2

-- telnetHandler, given the error of DialToAndCall, if it has one: what is printed to the client.
-- `none` is the panic of DialAddr.
unfoldable pub telnet_handler :
    {E : Type 0} → UrlParser → (String → Option E) → Host → Option (Option E)
unfolding dial_addr
telnet_handler url dial_to_and_call host = elim (dial_addr url host) [
  | none ↦ none
  | some addr ↦ some (dial_to_and_call addr)
]
