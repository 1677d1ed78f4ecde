-- ===== src/Tunnel.antt =====
-- The recording of a forwarded tunnel, pkg/bastion/logtunnel.go. Bytes are numbers. The log and the
-- channel are a library's: the log takes what is written, and an error of it is only printed.
pub mod Reader
pub mod RoundTrip
mod Tests
use sshportal.Base.{ℕ, zero, suc, ◌+◌, ◌*◌, ◌/◌, ◌%◌, List, [], ◌∷◌, ◌++◌, length}
use sshportal.Models.{Bytes}

-- the lowest bytes of a number, the least significant first: binary.Write with LittleEndian
unfoldable pub little_endian : ℕ → ℕ → Bytes
little_endian zero n = []
little_endian (suc k) n = n % 256 ∷ little_endian k (n / 256)

-- syscall.NsecToTimeval of UnixNano
abbrev pub seconds : ℕ → ℕ
seconds now = now / 1000000000

abbrev pub microseconds : ℕ → ℕ
microseconds now = now % 1000000000 / 1000

-- writeHeader: the seconds and the length as 32 bits, and the microseconds in the width of the
-- platform's Timeval, which has 8 bytes on 64-bit Linux
unfoldable pub write_header : ℕ → ℕ → ℕ → Bytes
write_header width now length =
    little_endian 4 (seconds now)
    ++ (little_endian width (microseconds now) ++ little_endian 4 length)

abbrev pub separator : Bytes
separator = b':' ∷ b' ' ∷ []

-- what Write puts into the log
unfoldable pub record_of : ℕ → Bytes → ℕ → Bytes → Bytes
record_of width host now written =
    write_header width now (length written + length (host ++ separator))
    ++ ((host ++ separator) ++ written)

-- Write: the log first, then the channel, whose answer is returned
unfoldable pub tunnel_write :
    {L C A : Type 0}
    → (Bytes → L → L)
    → (Bytes → C → A × C)
    → ℕ
    → Bytes
    → ℕ
    → Bytes
    → L × C
    → A × L × C
unfolding record_of
tunnel_write log send width host now written (l, c) =
    let (a, c') = send written c in (a, log (record_of width host now written) l, c')

-- Close: the log, whose error is dropped, and then the channel
unfoldable pub tunnel_close : {L C A : Type 0} → (L → L) → (C → A × C) → L × C → A × L × C
tunnel_close close_log close_channel (l, c) = let (a, c') = close_channel c in (a, close_log l, c')
