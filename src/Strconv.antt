-- ===== src/Strconv.antt =====
-- What the program uses of Go's strconv and fmt for numbers: ParseUint(s, 10, 64), Atoi (as a test)
-- and the `%d` verb. Digits are ASCII, so characters are bytes here.
pub mod Printing
use Prim.Native.String.{[] as nil, ◌∷◌ as cons}
use sshportal.Base.{
  ℕ, ◌+◌, ◌-◌, ◌*◌, ◌^◌, Char, code, String, Bool, false, true, ◌&&◌, Option, none, some, ltb, leb,
  eqb, ◌==◌, if◌then◌else◌,
}

abbrev pub is_digit : Char → Bool
is_digit c = leb b'0' (code c) && leb (code c) b'9'

abbrev pub shift : ℕ → Char → ℕ
shift n c = n * 10 + (code c - b'0')

-- the loop of ParseUint: a value beyond the limit is a range error
unfoldable pub parse_digits : ℕ → ℕ → String → Option ℕ
parse_digits limit n nil = some n
parse_digits limit n (cons c s) =
    let rest = parse_digits limit (shift n c) s in
    if is_digit c && ltb (shift n c) limit then rest else none

abbrev pub parse_below : ℕ → String → Option ℕ
parse_below limit s = if s == "" then none else parse_digits limit 0 s

-- strconv.ParseUint(s, 10, 64)
unfoldable pub parse_uint : String → Option ℕ
unfolding parse_digits
parse_uint s = parse_below (2 ^ 64) s

is_some : Option ℕ → Bool
is_some none = false
is_some (some _) = true

-- whether strconv.Atoi accepts: a sign, then digits within the range of an int64
unfoldable pub is_int : String → Bool
unfolding parse_digits is_some
is_int nil = false
is_int (cons c s) =
    if eqb (code c) b'-'
    then is_some (parse_below (2 ^ 63 + 1) s)
    else if eqb (code c) b'+'
    then is_some (parse_below (2 ^ 63) s)
    else is_some (parse_below (2 ^ 63) (cons c s))
