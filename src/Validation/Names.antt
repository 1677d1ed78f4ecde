-- ===== src/Validation/Names.antt =====
-- What `unix_user` of pkg/dbmodels/validator.go lets through.
use Prim.Native.String.{[] as no_text, ◌∷◌ as push}
use text.Mathlib.TextLemmas.{nil-append, cons-append}
use sshportal.Base.{String, ◌<>◌, ◌≡◌, ◌∙◌, ap, true, ◌||◌, arith}
use sshportal.Validation.{unix_user}

-- the texts before, and after
unix_user-append : (s t : String) → unix_user (s <> t) ≡ (unix_user s || unix_user t)
unfolding unix_user
unix_user-append no_text t = ap unix_user (nil-append t)
unix_user-append (push c s) t =
    ap unix_user (cons-append c s t) ∙ ground (arith, unix_user-append s t)

-- The validator of names does not look at what stands around a name: any text with a valid part is
-- valid, whatever is before and behind it.
pub unix_user-anywhere :
    (before name after : String)
    → unix_user name ≡ true
    → unix_user (before <> name <> after) ≡ true
unix_user-anywhere before name after h =
    ground (arith, unix_user-append (before <> name) after, unix_user-append before name)
