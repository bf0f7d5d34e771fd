-- ===== src/Submission/Service/Checks.antt =====
-- The checks of internal/submission/service.go, in their order, and the submission that Create builds.
use batasd.Common.{false, ◌&&◌, not, List, [], ◌∷◌, Option, none, some, if◌then◌else◌}
use batasd.Common.Int.{ℤ, pos, ltb_ℤ, is_zero_ℤ}
use batasd.Common.Str.{Str, lit, str_eq, is_empty, trim_space}
use batasd.Common.Errors.{validation, Result, ok, err, ◌>>=◌, ◌>>◌, fail_if, or_fail}
use batasd.Submission.Model.{
  Time, Limits, AdditionalFiles, Callback, CreateRequest, ListQuery, Submission,
}
use batasd.Submission.Limits.{merge_limits, validate_limit_overrides}
use batasd.Submission.Backend.{Address}
use batasd.Language.{Registry, Runtime, get, resolve}
use batasd.Status.{queued, valid}

-- The error of validateCallbackURL, with the field that Create gives it.
unfoldable pub validate_callback_url : Option Address → Result (Unit {0})
unfolding str_eq
validate_callback_url none = err (validation (lit "callback.url") (lit "must be a valid URL"))
validate_callback_url (some parsed) = do
  fail_if (not (str_eq parsed.scheme (lit "https")) && not (str_eq parsed.scheme (lit "http")))
      (validation (lit "callback.url") (lit "must use http or https"))
  fail_if (is_empty parsed.host) (validation (lit "callback.url") (lit "host is required"))
  ok tt

unfoldable pub check_callback : (Str → Option Address) → Option Callback → Result (Unit {0})
unfolding trim_space validate_callback_url
check_callback parse none = ok tt
check_callback parse (some callback) =
    if is_empty (trim_space callback.url) then ok tt else validate_callback_url (parse callback.url)

unfoldable pub check_files : Option AdditionalFiles → Result (Unit {0})
unfolding trim_space str_eq
check_files none = ok tt
check_files (some files) = do
  fail_if (not (str_eq (trim_space files.encoding) (lit "zip_base64")))
      (validation (lit "additional_files.encoding") (lit "must be zip_base64"))
  fail_if (is_empty (trim_space files.content))
      (validation (lit "additional_files.content") (lit "content is required"))
  ok tt

-- The checks of Create that come before its limits, and the runtime that they choose.
unfoldable pub check_request : (Str → Option Address) → Registry → CreateRequest → Result Runtime
unfolding trim_space get resolve or_fail fail_if check_callback check_files
check_request parse languages req = do
  fail_if (is_empty (trim_space req.source)) (validation (lit "source") (lit "source is required"))
  fail_if (is_empty (trim_space req.language))
      (validation (lit "language") (lit "language is required"))
  family ←
      or_fail (get languages (trim_space req.language))
        (validation (lit "language") (lit "unsupported language"))
  fail_if (not family.enabled) (validation (lit "language") (lit "language is disabled"))
  lang ←
      or_fail (resolve languages (trim_space req.language) (trim_space req.language_version))
        (validation (lit "language_version") (lit "unsupported language version"))
  check_callback parse req.callback
  check_files req.additional_files
  ok lang

-- The limits of a submission under the defaults and the maximums of the service.
unfoldable pub choose_limits : Limits → Limits → Option Limits → Result Limits
unfolding merge_limits validate_limit_overrides
choose_limits defaults max none = ok defaults
choose_limits defaults max (some limits) =
    validate_limit_overrides limits max >> ok (merge_limits defaults limits)

unfoldable pub callback_url : Option Callback → Option Str
unfolding trim_space
callback_url none = none
callback_url (some callback) =
    if is_empty (trim_space callback.url) then none else some (trim_space callback.url)

unfoldable pub safe_string_slice : Option (List Str) → List Str
safe_string_slice none = []
safe_string_slice (some values) = values

unfoldable pub new_submission : CreateRequest → Runtime → Limits → Str → Time → Submission
unfolding safe_string_slice callback_url
new_submission req lang limits token now = record {
  token = token;
  language = lang.slug;
  language_version = lang.version;
  source = req.source;
  input = req.input;
  expected_output = req.expected_output;
  arguments = safe_string_slice req.arguments;
  compiler_options = safe_string_slice req.compiler_options;
  limits = limits;
  additional_files = req.additional_files;
  callback_url = callback_url req.callback;
  status_code = queued;
  stdout = none;
  stderr = none;
  stdout_truncated = false;
  stderr_truncated = false;
  compile_output = none;
  compile_output_truncated = false;
  message = none;
  exit_code = none;
  exit_signal = none;
  time_ms = none;
  wall_time_ms = none;
  memory_kb = none;
  created_at = now;
  queued_at = some now;
  started_at = none;
  finished_at = none;
  updated_at = now;
}

unfoldable pub clamp_limit : ℤ → ℤ
clamp_limit limit =
    if is_zero_ℤ limit then pos 20 else if ltb_ℤ (pos 100) limit then pos 100 else limit

-- `if query.Language != "" { ... }`.
unfoldable pub check_language : Registry → Str → Result (Unit {0})
unfolding get or_fail
check_language languages [] = ok tt
check_language languages (a ∷ slug) =
    or_fail (get languages (a ∷ slug)) (validation (lit "language") (lit "unsupported language"))
    >>= λ _. ok tt

-- The query that List hands to the repository, before the cursor is looked up.
unfoldable pub check_query : Registry → ListQuery → Result ListQuery
unfolding trim_space valid fail_if check_language clamp_limit
check_query languages query = do
  fail_if (ltb_ℤ (clamp_limit query.limit) (pos 1))
      (validation (lit "limit") (lit "must be at least 1"))
  fail_if
      (not (is_empty (trim_space query.status_code)) && not (valid (trim_space query.status_code)))
      (validation (lit "status") (lit "unsupported status"))
  check_language languages (trim_space query.language)
  ok (record {
    limit = clamp_limit query.limit;
    before_token = trim_space query.before_token;
    status_code = trim_space query.status_code;
    language = trim_space query.language;
  })

-- `strings.TrimSpace(token)`, which must not be empty.
unfoldable pub check_token : Str → Result Str
unfolding trim_space fail_if
check_token token =
    fail_if (is_empty (trim_space token)) (validation (lit "token") (lit "token is required"))
    >> ok (trim_space token)
