-- ===== src/Api/Fields.antt =====
-- The `fields` parameter: parseSubmissionFields of internal/httpapi/submissions.go, with
-- ValidResponseField of internal/submission/response.go.
pub mod Laws
use batasd.Common.{
  Bool, true, false, ◌||◌, not, List, [], ◌∷◌, ◌++◌, Option, none, some, if◌then◌else◌, ◌==◌, any,
}
use batasd.Common.Str.{Str, lit, str_eq, is_empty, trim_space}
use batasd.Common.Strconv.{split_comma}
use batasd.Common.Errors.{Error, validation, Result, ok, err, ◌>>=◌}

abbrev response_fields : List Str
response_fields =
    lit "token"
    ∷ lit "language"
    ∷ lit "language_version"
    ∷ lit "status"
    ∷ lit "stdout"
    ∷ lit "stderr"
    ∷ lit "stdout_truncated"
    ∷ lit "stderr_truncated"
    ∷ lit "compile_output"
    ∷ lit "compile_output_truncated"
    ∷ lit "message"
    ∷ lit "exit_code"
    ∷ lit "exit_signal"
    ∷ lit "time_ms"
    ∷ lit "wall_time_ms"
    ∷ lit "memory_kb"
    ∷ lit "created_at"
    ∷ lit "queued_at"
    ∷ lit "started_at"
    ∷ lit "finished_at"
    ∷ lit "limits"
    ∷ lit "arguments"
    ∷ lit "compiler_options"
    ∷ []

unfoldable pub valid_response_field : Str → Bool
unfolding str_eq
valid_response_field field = any (str_eq field) response_fields

-- `seen[field]`; the fields that were seen are those that were kept.
abbrev pub is_seen : Str → List Str → Bool
is_seen field fields = any (str_eq field) fields

-- One round of the loop, given the `%q` of package fmt.
unfoldable pub add_field : (Str → Str) → List Str → Str → Result (List Str)
add_field quote fields field =
    if is_empty field
    then ok fields
    else if str_eq field (lit "*")
    then err (validation (lit "fields") (lit "cannot combine * with other fields"))
    else if not (valid_response_field field)
    then err (validation (lit "fields") (lit "unsupported field " ++ quote field))
    else if is_seen field fields
    then ok fields
    else ok (fields ++ (field ∷ []))

unfoldable pub add_fields : (Str → Str) → List Str → List Str → Result (List Str)
unfolding trim_space
add_fields quote fields [] = ok fields
add_fields quote fields (part ∷ parts) =
    add_field quote fields (trim_space part) >>= λ more. add_fields quote more parts

-- A nil slice, which stands for all fields, is `none`.
unfoldable pub or_all : List Str → Option (List Str)
or_all [] = none
or_all (field ∷ fields) = some (field ∷ fields)

unfoldable pub parse_submission_fields : (Str → Str) → Str → Result (Option (List Str))
unfolding trim_space split_comma
parse_submission_fields quote raw =
    if is_empty (trim_space raw) || str_eq (trim_space raw) (lit "*")
    then ok none
    else (add_fields quote [] (split_comma (trim_space raw)) >>= λ fields. ok (or_all fields))
