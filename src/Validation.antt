-- ===== src/Validation.antt =====
-- The validators that the program adds to the library's: pkg/dbmodels/validator.go and
-- pkg/utils/emailvalidator.go. What their regular expressions match is written out.
pub mod Names
mod Tests
use Prim.Native.String.{[] as no_text, ◌∷◌ as push}
use sshportal.Base.{
  ℕ, zero, suc, Char, code, String, Bool, true, false, not, ◌&&◌, ◌||◌, Option, none, some, List,
  [], ◌∷◌, leb, eqb, split, ◌==◌,
}

-- [first-last], of codes
abbrev pub in_range : ℕ → ℕ → Char → Bool
in_range first last c = leb first (code c) && leb (code c) last

-- [a-z_]
abbrev pub begins_name : Char → Bool
begins_name c = in_range b'a' b'z' c || eqb (code c) b'_'

-- [a-z_][a-z0-9_-]* somewhere in the text: the expression has no anchors, and the star may match
-- nothing
unfoldable pub unix_user : String → Bool
unix_user no_text = false
unix_user (push c s) = begins_name c || unix_user s

abbrev pub is_alphanumeric : Char → Bool
is_alphanumeric c = in_range b'a' b'z' c || in_range b'A' b'Z' c || in_range b'0' b'9' c

abbrev pub one_of : String → Char → Bool
one_of no_text c = false
one_of (push d s) c = eqb (code c) (code d) || one_of s c

abbrev pub every : (Char → Bool) → String → Bool
every p no_text = true
every p (push c s) = p c && every p s

abbrev pub count : String → ℕ
count no_text = 0
count (push c s) = suc (count s)

abbrev pub first_is : (Char → Bool) → String → Bool
first_is p no_text = false
first_is p (push c s) = p c

abbrev pub last_is : (Char → Bool) → String → Bool
last_is p no_text = false
last_is p (push c no_text) = p c
last_is p (push c (push d s)) = last_is p (push d s)

-- [a-zA-Z0-9](?:[a-zA-Z0-9-]{0,61}[a-zA-Z0-9])?
unfoldable pub is_label : String → Bool
is_label s =
    first_is is_alphanumeric s
    && last_is is_alphanumeric s
    && every (λ c. is_alphanumeric c || eqb (code c) b'-') s
    && leb (count s) 63

unfoldable pub all_labels : List String → Bool
unfolding is_label
all_labels [] = true
all_labels (l ∷ ls) = is_label l && all_labels ls

unfoldable pub is_local : String → Bool
is_local s = not (s == "") && every (λ c. is_alphanumeric c || one_of ".!#$%&'*+/=?^_`{|}~-" c) s

unfoldable pub match_email : List String → Bool
unfolding split all_labels is_local
match_email (local ∷ domain ∷ []) = is_local local && all_labels (split b'.' domain)
match_email _ = false

-- ValidateEmail; a text that matches is ASCII, so that its bytes are as many as its characters
unfoldable pub validate_email : String → Bool
unfolding match_email split
validate_email e = leb 3 (count e) && leb (count e) 254 && match_email (split b'@' e)
