-- ===== src/Shell/Fields.antt =====
-- What the commands compute of flags and rows: optional times, input URLs, and the fields of new and
-- of updated rows.
use sshportal.Base.{
  ℕ, String, ◌<>◌, Bool, not, ◌||◌, Option, none, some, List, [], ◌∷◌, ◌++◌, filter, any, eqb,
  contains, ◌==◌, if◌then◌else◌, Result, ok, err,
}
use sshportal.Models.{Acl}
use sshportal.Auth.Tables.{nonzero}
use sshportal.Shell.Actions.{Context}

-- parseInputURL, and the text of the URL
unfoldable pub parse_input_url : (String → Result String String) → String → Result String String
parse_input_url parse input =
    if contains "://" input then parse input else parse ("ssh://" <> input)

-- IsValidHostLoggingMode
unfoldable pub is_valid_host_logging_mode : String → Bool
is_valid_host_logging_mode name = name == "disabled" || name == "input" || name == "everything"

-- parseOptionalTime
unfoldable pub parse_optional_time : (String → Result String ℕ) → String → Result String (Option ℕ)
parse_optional_time parse input =
    if input == "" then ok none else (elim (parse input) [ ok t ↦ ok (some t) | err e ↦ err e ])

-- an association with further rows, and one without some; a row is known by its id
module _ {R : Type 0} (id : R → ℕ) where
  abbrev has : R → List R → Bool
  has r l = any (λ x. eqb (id x) (id r)) l

  unfoldable pub add_rows : List R → List R → List R
  add_rows l [] = l
  add_rows l (r ∷ rs) = add_rows (if has r l then l else l ++ r ∷ []) rs

  unfoldable pub drop_rows : List R → List R → List R
  drop_rows l rs = filter (λ x. not (has x rs)) l

-- Updates with a struct: the fields that are not zero
abbrev kept_time : Option ℕ → Option ℕ → Option ℕ
kept_time old none = old
kept_time old (some t) = some t

unfoldable pub updated_acl : Context → Option ℕ → Option ℕ → Acl → Acl
updated_acl c inception expiration acl = record acl {
  action = nonzero acl.action (c.string "action");
  host_pattern = nonzero acl.host_pattern (c.string "pattern");
  weight = if eqb (c.uint "weight") 0 then acl.weight else c.uint "weight";
  inception = kept_time acl.inception inception;
  expiration = kept_time acl.expiration expiration;
  comment = nonzero acl.comment (c.string "comment");
}

unfoldable pub new_acl : Context → Option ℕ → Option ℕ → Acl
new_acl c inception expiration = record {
  id = 0;
  host_groups = [];
  user_groups = [];
  host_pattern = c.string "pattern";
  action = c.string "action";
  weight = c.uint "weight";
  comment = c.string "comment";
  inception = inception;
  expiration = expiration;
}
