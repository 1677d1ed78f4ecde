-- ===== src/Validation/Tests.antt =====
-- Examples of the validators, with the cases of pkg/utils/emailvalidator_test.go.
use sshportal.Base.{◌≡◌, refl, true, false, split, [], ◌∷◌, map}
use sshportal.Validation.{is_label, is_local, all_labels, match_email, validate_email}

emails : Unit {0}
unfolding validate_email match_email split is_local is_label all_labels
emails = tt

email_tests :
    map validate_email
      ("goodemail@email.com" ∷ "b@2323.22" ∷ "b@2322." ∷ "" ∷ "blah" ∷ "blah.com" ∷ [])
    ≡ true ∷ true ∷ false ∷ false ∷ false ∷ false ∷ []
unfolding emails
email_tests = refl
