-- ===== src/Tunnel/Reader.antt =====
-- A reader of the recordings, to state what they hold.
use sshportal.Base.{
  ℕ, zero, suc, ◌+◌, ◌*◌, Option, none, some, List, [], ◌∷◌, take, drop, length, ltb, if◌then◌else◌,
}
use sshportal.Models.{Bytes}

-- the number of that many bytes, and what follows them
unfoldable pub read_number : ℕ → Bytes → Option (ℕ × Bytes)
read_number zero l = some (0, l)
read_number (suc k) [] = none
read_number (suc k) (b ∷ l) = elim (read_number k l) [
  | none ↦ none
  | some (n, rest) ↦ some (b + 256 * n, rest)
]

pub record Entry : Type 0 where
  pub sec : ℕ
  pub usec : ℕ
  pub text : Bytes

unfoldable pub read_entry : ℕ → Bytes → Option (Entry × Bytes)
read_entry width l = elim (read_number 4 l) [
  | none ↦ none
  | some (sec, l₁) ↦ elim (read_number width l₁) [
    | none ↦ none
    | some (usec, l₂) ↦ elim (read_number 4 l₂) [
      | none ↦ none
      | some (n, l₃) ↦
          if ltb (length l₃) n
          then none
          else some (record { sec = sec; usec = usec; text = take n l₃ }, drop n l₃)
    ]
  ]
]

-- all entries of a log; each takes a byte at least
unfoldable pub read_log : ℕ → ℕ → Bytes → Option (List Entry)
read_log width fuel [] = some []
read_log width zero (b ∷ l) = none
read_log width (suc fuel) (b ∷ l) = elim (read_entry width (b ∷ l)) [
  | none ↦ none
  | some (e, rest) ↦ elim (read_log width fuel rest) [ none ↦ none | some es ↦ some (e ∷ es) ]
]
