-- ===== src/Api/Submissions.antt =====
-- internal/httpapi/submissions.go: the handlers of submissions, from the parts of a request that they
-- read to what they write. `none` is a wait that was still going on when its fuel was spent.
pub mod Refused
pub mod Outcome
pub mod Created
use batasd.Common.{ℕ, Bool, true, false, ◌||◌, List, [], ◌∷◌, Option, none, some, if◌then◌else◌}
use batasd.Common.Int.{ℤ, pos, leb_ℤ}
use batasd.Common.Str.{Str, lit, is_empty, trim_space}
use batasd.Common.Strconv.{parse_int, parse_bool}
use batasd.Common.Errors.{
  Error, validation, Result, ok, err, is_not_found, is_canceled, is_deadline_exceeded,
}
use batasd.Submission.Model.{
  Time, Limits, CreateRequest, ListQuery, ListResult, Submission, CallbackAttempt,
}
use batasd.Submission.Backend.{Backend}
use batasd.Submission.Service.{create, find, wait_for_completion, list, list_callback_attempts}
use batasd.Submission.Response.{
  Response, ListResponse, select_response_fields, select_list_response_fields, to_response,
  to_list_response, to_created_response, to_callback_attempts_response,
}
use batasd.Language.{Registry}
use batasd.Api.Answers.{
  Answer, Body, response, selection, page, selected_page, created, attempts, write_json,
  write_error, query_error, internal_error,
}
use batasd.Api.Fields.{parse_submission_fields}

-- What decoding the body gives; a body beyond the limit of maxBodyBytes is told apart from the rest.
pub data Decoded : Type 0 where
  decoded : CreateRequest → Decoded
  too_large : Decoded
  malformed : Decoded

-- `query` is `r.URL.Query().Get`, and `token` the URL parameter.
pub record Request : Type 0 where
  pub query : Str → Str
  pub token : Str
  pub body : Decoded

abbrev list_query : Request → ℤ → ListQuery
list_query r limit = record {
  limit = limit;
  before_token = r.query (lit "before");
  status_code = r.query (lit "status");
  language = r.query (lit "language");
}

unfoldable pub parse_submission_list_query : Request → Result ListQuery
unfolding trim_space parse_int
parse_submission_list_query r =
    if is_empty (trim_space (r.query (lit "limit")))
    then ok (list_query r (pos 0))
    else elim (parse_int (trim_space (r.query (lit "limit")))) [
      | none ↦ err (validation (lit "limit") (lit "must be an integer"))
      | some limit ↦ ok (list_query r limit)
    ]

unfoldable pub parse_submission_wait : Request → Result Bool
unfolding trim_space parse_bool
parse_submission_wait r =
    if is_empty (trim_space (r.query (lit "wait")))
    then ok false
    else elim (parse_bool (trim_space (r.query (lit "wait")))) [
      | none ↦ err (validation (lit "wait") (lit "must be boolean"))
      | some wait ↦ ok wait
    ]

unfoldable pub submission_response_value : Response → Option (List Str) → Body
unfolding select_response_fields
submission_response_value r none = response r
submission_response_value r (some fields) = selection (select_response_fields r fields)

unfoldable pub list_response_value : ListResponse → Option (List Str) → Body
unfolding select_list_response_fields
list_response_value r none = page r
list_response_value r (some fields) = selected_page (select_list_response_fields r fields)

unfoldable pub too_large_error : Answer
unfolding write_error
too_large_error =
    write_error 413 (lit "request_too_large") (lit "request body exceeds the configured limit")

unfoldable pub malformed_error : Answer
unfolding write_error
malformed_error = write_error 400 (lit "invalid_json") (lit "request body must be valid JSON")

-- `if timeout <= 0 { timeout = 10 * time.Second }`.
unfoldable pub wait_timeout : ℤ → ℤ
wait_timeout timeout = if leb_ℤ timeout (pos 0) then pos 10000000000 else timeout

-- SubmissionHandler with the service that it holds. `waiting` is the backend whose ticks are those of
-- a context with a timeout and of a ticker with an interval; `quote` is the `%q` of package fmt, and
-- `format_time` the format time.RFC3339Nano.
pub record SubmissionHandler (W : Type 0) : Type 0 where
  pub backend : Backend W
  pub waiting : ℤ → ℤ → Backend W
  pub languages : Registry
  pub default_limits : Limits
  pub max_limits : Limits
  pub wait_timeout : ℤ
  pub wait_poll_interval : ℤ
  pub quote : Str → Str
  pub format_time : Time → Str

module _ {W : Type 0} (h : SubmissionHandler W) where
  list_answer : Option (List Str) → Result ListResult → Answer
  unfolding write_error internal_error write_json list_response_value to_list_response
  list_answer fields (ok result) =
      write_json 200 (list_response_value (to_list_response h.format_time result) fields)
  list_answer fields (err e) =
      if is_not_found e
      then write_error 404 (lit "not_found") (lit "submission not found")
      else internal_error (lit "could not list submissions") e

  listed : Result ListQuery → Result (Option (List Str)) → W → Answer × W
  unfolding query_error list_answer list
  listed (err e) fields w = (query_error e, w)
  listed (ok query) (err e) w = (query_error e, w)
  listed (ok query) (ok fields) w =
      let (result, w') = list h.backend h.languages query w in (list_answer fields result, w')

  unfoldable pub list_submissions : Request → W → Answer × W
  unfolding listed parse_submission_list_query parse_submission_fields
  list_submissions r w =
      listed (parse_submission_list_query r)
        (parse_submission_fields h.quote (r.query (lit "fields"))) w

  get_answer : Option (List Str) → Result Submission → Answer
  unfolding write_error internal_error write_json submission_response_value to_response
  get_answer fields (ok sub) =
      write_json 200 (submission_response_value (to_response h.format_time sub) fields)
  get_answer fields (err e) =
      if is_not_found e
      then write_error 404 (lit "not_found") (lit "submission not found")
      else internal_error (lit "could not fetch submission") e

  got : Str → Result (Option (List Str)) → W → Answer × W
  unfolding query_error get_answer find
  got token (err e) w = (query_error e, w)
  got token (ok fields) w =
      let (result, w') = find h.backend token w in (get_answer fields result, w')

  unfoldable pub get_submission : Request → W → Answer × W
  unfolding got parse_submission_fields
  get_submission r w = got r.token (parse_submission_fields h.quote (r.query (lit "fields"))) w

  attempts_answer : Str → Result (List CallbackAttempt) → Answer
  unfolding write_error internal_error write_json to_callback_attempts_response
  attempts_answer token (ok found) =
      write_json 200 (attempts (to_callback_attempts_response h.format_time token found))
  attempts_answer token (err e) =
      if is_not_found e
      then write_error 404 (lit "not_found") (lit "submission not found")
      else internal_error (lit "could not fetch callback attempts") e

  unfoldable pub callback_attempts : Request → W → Answer × W
  unfolding attempts_answer list_callback_attempts
  callback_attempts r w =
      let (result, w') = list_callback_attempts h.backend r.token w in
      (attempts_answer r.token result, w')

  -- What is written behind the wait. Where the wait has no submission to show it is the created one;
  -- a wait that ends without an error always has one.
  unfoldable pub wait_answer :
      Submission → Option (List Str) → Option Submission × Option Error → Answer
  unfolding write_json internal_error submission_response_value to_response
  wait_answer sub fields (waited, some e) =
      if is_deadline_exceeded e || is_canceled e
      then write_json 202 (
          submission_response_value
            (to_response h.format_time (elim waited [ none ↦ sub | some newer ↦ newer ])) fields)
      else internal_error (lit "could not wait for submission") e
  wait_answer sub fields (waited, none) = write_json 201 (
      submission_response_value
        (to_response h.format_time (elim waited [ none ↦ sub | some newer ↦ newer ])) fields)

  unfoldable pub wait_for_created_submission :
      ℕ → Submission → Option (List Str) → W → Option Answer × W
  unfolding wait_answer wait_for_completion wait_timeout
  wait_for_created_submission fuel sub fields w =
      let waiting = h.waiting (wait_timeout h.wait_timeout) h.wait_poll_interval in
      let (answer, w') = wait_for_completion waiting fuel sub.token w in
      (elim answer [ none ↦ none | some a ↦ some (wait_answer sub fields a) ], w')

  -- Behind Service.Create; `fields` is none without a wait.
  unfoldable pub after_create :
      ℕ → Option (Option (List Str)) → Result Submission → W → Option Answer × W
  unfolding internal_error write_json to_created_response wait_for_created_submission
  after_create fuel waits (err e) w =
      (some (internal_error (lit "could not create submission") e), w)
  after_create fuel none (ok sub) w = (some (write_json 201 (created (to_created_response sub))), w)
  after_create fuel (some fields) (ok sub) w = wait_for_created_submission fuel sub fields w

  unfoldable pub create_decoded : ℕ → Option (Option (List Str)) → Decoded → W → Option Answer × W
  unfolding after_create create too_large_error malformed_error
  create_decoded fuel waits too_large w = (some too_large_error, w)
  create_decoded fuel waits malformed w = (some malformed_error, w)
  create_decoded fuel waits (decoded request) w =
      let (result, w') = create h.backend h.languages h.default_limits h.max_limits request w in
      after_create fuel waits result w'

  -- The fields count only for a request that waits.
  unfoldable pub wait_and_fields :
      Result Bool → Result (Option (List Str)) → Result (Option (Option (List Str)))
  wait_and_fields (err e) fields = err e
  wait_and_fields (ok false) fields = ok none
  wait_and_fields (ok true) (err e) = err e
  wait_and_fields (ok true) (ok fields) = ok (some fields)

  unfoldable pub parse_create : Request → Result (Option (Option (List Str)))
  unfolding wait_and_fields parse_submission_wait parse_submission_fields
  parse_create r =
      wait_and_fields (parse_submission_wait r)
        (parse_submission_fields h.quote (r.query (lit "fields")))

  unfoldable pub create_parsed :
      ℕ → Result (Option (Option (List Str))) → Decoded → W → Option Answer × W
  unfolding query_error create_decoded
  create_parsed fuel (err e) body w = (some (query_error e), w)
  create_parsed fuel (ok waits) body w = create_decoded fuel waits body w

  unfoldable pub create_submission : ℕ → Request → W → Option Answer × W
  unfolding parse_create create_parsed
  create_submission fuel r w = create_parsed fuel (parse_create r) r.body w
