-- ===== src/Tests/Fields.antt =====
-- Selections of fields.
use batasd.Api.Fields.{or_all}
use batasd.Api.Fields.{valid_response_field}
use batasd.Api.Fields.{add_fields}
use batasd.Common.{[], ◌∷◌, some, ◌≡◌, refl}
use batasd.Common.Str.{Str, lit, str_eq}
use batasd.Common.Errors.{Error, ok, err}
use batasd.Api.Fields.{parse_submission_fields, add_field}

abbrev quote : Str → Str
quote s = s

selected_test :
    parse_submission_fields quote (lit " token,, status ,token")
    ≡ ok (some (lit "token" ∷ lit "status" ∷ []))
unfolding parse_submission_fields str_eq add_fields add_field valid_response_field or_all
selected_test = refl

star_test :
    parse_submission_fields quote (lit "token,*")
    ≡ err (Error.validation (lit "fields") (lit "cannot combine * with other fields"))
unfolding parse_submission_fields str_eq add_fields add_field valid_response_field
star_test = refl
