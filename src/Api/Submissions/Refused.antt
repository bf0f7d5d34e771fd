-- ===== src/Api/Submissions/Refused.antt =====
-- The errors of reading a query of internal/httpapi/submissions.go: they are all the client's.
use batasd.Common.{
  Bool, true, false, ◌||◌, List, [], ◌∷◌, Option, none, some, if◌then◌else◌, ◌≡◌, refl, not,
}
use batasd.Common.Str.{Str, lit, str_eq, is_empty, trim_space}
use batasd.Common.Strconv.{parse_bool, split_comma}
use batasd.Common.Errors.{Error, validation, Result, ok, err, ◌>>=◌}
use batasd.Api.Answers.{validation_text}
use batasd.Api.Fields.{
  parse_submission_fields, add_field, add_fields, valid_response_field, is_seen, or_all,
}
use batasd.Api.Submissions.{Request, parse_submission_wait}

-- An error of the client, which is answered with 422.
abbrev pub IsValidation : Error → Type 0
IsValidation e = (message : Str) × (validation_text e ≡ some message)

validation_lem : (field message : Str) → IsValidation (validation field message)
unfolding validation_text
validation_lem field message = (_, refl)

-- A step fails with an error of the client only.
abbrev pub FailsValid {κ} : {T : Type κ} → Result T → Type 0
FailsValid (ok value) = Unit
FailsValid (err e) = IsValidation e

>>=-FailsValid {κ μ} :
    {S : Type κ} {T : Type μ} (step : Result S) (next : S → Result T)
    → FailsValid step
    → ((s : S) → FailsValid (next s))
    → FailsValid (step >>= next)
>>=-FailsValid (ok s) next f g = g s
>>=-FailsValid (err e) next f g = f

either-FailsValid {κ} :
    {T : Type κ} (test : Bool) (x y : Result T)
    → FailsValid x
    → FailsValid y
    → FailsValid (if test then x else y)
either-FailsValid true x y f g = f
either-FailsValid false x y f g = g

add_field-FailsValid :
    (quote : Str → Str) (fields : List Str) (field : Str)
    → FailsValid (add_field quote fields field)
unfolding add_field
add_field-FailsValid quote fields field = either-FailsValid (is_empty field) _ _ tt (
    either-FailsValid (str_eq field (lit "*")) _ _ (validation_lem _ _) (
      either-FailsValid (not (valid_response_field field)) _ _ (validation_lem _ _)
        (either-FailsValid (is_seen field fields) _ _ tt tt)))

add_fields-FailsValid :
    (quote : Str → Str) (fields parts : List Str) → FailsValid (add_fields quote fields parts)
unfolding add_fields
add_fields-FailsValid quote fields [] = tt
add_fields-FailsValid quote fields (part ∷ parts) =
    >>=-FailsValid (add_field quote fields (trim_space part)) (λ more. add_fields quote more parts)
      (add_field-FailsValid quote fields (trim_space part))
      (λ more. add_fields-FailsValid quote more parts)

pub parse_submission_fields-FailsValid :
    (quote : Str → Str) (raw : Str) → FailsValid (parse_submission_fields quote raw)
unfolding parse_submission_fields
parse_submission_fields-FailsValid quote raw =
    either-FailsValid (is_empty (trim_space raw) || str_eq (trim_space raw) (lit "*")) _ _ tt (
      >>=-FailsValid (add_fields quote [] (split_comma (trim_space raw)))
        (λ fields. ok (or_all fields))
        (add_fields-FailsValid quote [] (split_comma (trim_space raw))) (λ fields. tt))

pub parse_submission_wait-FailsValid : (r : Request) → FailsValid (parse_submission_wait r)
unfolding parse_submission_wait
parse_submission_wait-FailsValid r =
    either-FailsValid (is_empty (trim_space (r.query (lit "wait")))) _ _ tt
      (of_parsed (parse_bool (trim_space (r.query (lit "wait")))))
  where
    of_parsed :
        (parsed : Option Bool)
        → FailsValid (elim parsed as (λ o. Result Bool) [
          | none ↦ err (validation (lit "wait") (lit "must be boolean"))
          | some wait ↦ ok wait
        ])
    of_parsed none = validation_lem _ _
    of_parsed (some wait) = tt
