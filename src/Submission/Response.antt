-- ===== src/Submission/Response.antt =====
-- internal/submission/response.go: the public shapes of a submission. A Go map is its entries, one
-- for each key.
pub mod Json
pub mod Selected
use batasd.Common.{Bool, List, [], ◌∷◌, map, Option, none, some, if◌then◌else◌}
use batasd.Common.Int.{ℤ}
use batasd.Common.Str.{Str, lit, str_eq}
use batasd.Submission.Model.{
  Time, Limits, Submission, SubmissionResult, ListResult, CallbackAttempt,
}
use batasd.Status.{Status, describe}

-- Times are texts of time.RFC3339Nano.
pub record Response : Type 0 where
  pub token : Str
  pub language : Str
  pub language_version : Str
  pub status : Status
  pub stdout : Option Str
  pub stderr : Option Str
  pub stdout_truncated : Bool
  pub stderr_truncated : Bool
  pub compile_output : Option Str
  pub compile_output_truncated : Bool
  pub message : Option Str
  pub exit_code : Option ℤ
  pub exit_signal : Option Str
  pub time_ms : Option ℤ
  pub wall_time_ms : Option ℤ
  pub memory_kb : Option ℤ
  pub created_at : Str
  pub queued_at : Option Str
  pub started_at : Option Str
  pub finished_at : Option Str
  pub limits : Limits
  pub arguments : List Str
  pub compiler_options : List Str

pub record CallbackAttemptResponse : Type 0 where
  pub id : ℤ
  pub attempt : ℤ
  pub status_code : Option ℤ
  pub error : Option Str
  pub created_at : Str

pub record CallbackAttemptsResponse : Type 0 where
  pub submission_token : Str
  pub attempts : List CallbackAttemptResponse

pub record PaginationInfo : Type 0 where
  pub limit : ℤ
  pub next_before : Option Str

pub record ListResponse : Type 0 where
  pub submissions : List Response
  pub pagination : PaginationInfo

-- What an `any` of a selection holds.
pub data Value : Type 0 where
  text : Str → Value
  status : Status → Value
  maybe_text : Option Str → Value
  maybe_number : Option ℤ → Value
  flag : Bool → Value
  limits : Limits → Value
  texts : List Str → Value

abbrev pub Selection : Type 0
Selection = List (Str × Value)

unfoldable pub find_key : Str → Selection → Option Value
unfolding str_eq
find_key key [] = none
find_key key ((k, v) ∷ entries) = if str_eq key k then some v else find_key key entries

-- `out[key] = value`.
unfoldable pub put : Str → Value → Selection → Selection
unfolding str_eq
put key value [] = (key, value) ∷ []
put key value ((k, v) ∷ entries) =
    let rest = put key value entries in if str_eq key k then (k, value) ∷ entries else (k, v) ∷ rest

-- The cases of the switch in SelectResponseFields.
unfoldable pub members : Response → Selection
members r =
    (lit "token", text r.token)
    ∷ (lit "language", text r.language)
    ∷ (lit "language_version", text r.language_version)
    ∷ (lit "status", status r.status)
    ∷ (lit "stdout", maybe_text r.stdout)
    ∷ (lit "stderr", maybe_text r.stderr)
    ∷ (lit "stdout_truncated", flag r.stdout_truncated)
    ∷ (lit "stderr_truncated", flag r.stderr_truncated)
    ∷ (lit "compile_output", maybe_text r.compile_output)
    ∷ (lit "compile_output_truncated", flag r.compile_output_truncated)
    ∷ (lit "message", maybe_text r.message)
    ∷ (lit "exit_code", maybe_number r.exit_code)
    ∷ (lit "exit_signal", maybe_text r.exit_signal)
    ∷ (lit "time_ms", maybe_number r.time_ms)
    ∷ (lit "wall_time_ms", maybe_number r.wall_time_ms)
    ∷ (lit "memory_kb", maybe_number r.memory_kb)
    ∷ (lit "created_at", text r.created_at)
    ∷ (lit "queued_at", maybe_text r.queued_at)
    ∷ (lit "started_at", maybe_text r.started_at)
    ∷ (lit "finished_at", maybe_text r.finished_at)
    ∷ (lit "limits", limits r.limits)
    ∷ (lit "arguments", texts r.arguments)
    ∷ (lit "compiler_options", texts r.compiler_options)
    ∷ []

unfoldable pub add_member : Response → Str → Selection → Selection
unfolding find_key members put
add_member r field out = elim (find_key field (members r)) [
  | none ↦ out
  | some value ↦ put field value out
]

unfoldable pub select_from : Response → List Str → Selection → Selection
unfolding add_member
select_from r [] out = out
select_from r (field ∷ fields) out = select_from r fields (add_member r field out)

unfoldable pub select_response_fields : Response → List Str → Selection
unfolding select_from
select_response_fields r fields = select_from r fields []

-- The "submissions" and the "pagination" of the map.
pub record SelectedList : Type 0 where
  pub submissions : List Selection
  pub pagination : PaginationInfo

unfoldable pub select_list_response_fields : ListResponse → List Str → SelectedList
unfolding select_response_fields
select_list_response_fields r fields = record {
  submissions = map (λ sub. select_response_fields sub fields) r.submissions;
  pagination = r.pagination;
}

-- The "token" and the "status" of the map.
pub record CreatedResponse : Type 0 where
  pub token : Str
  pub status : Status

unfoldable pub to_created_response : Submission → CreatedResponse
unfolding describe
to_created_response sub = record { token = sub.token; status = describe sub.status_code }

-- Given Format with time.RFC3339Nano.
module _ (format_time : Time → Str) where
  unfoldable pub format_time_ptr : Option Time → Option Str
  format_time_ptr none = none
  format_time_ptr (some value) = some (format_time value)

  unfoldable pub to_response : Submission → Response
  unfolding describe format_time_ptr
  to_response sub = record {
    token = sub.token;
    language = sub.language;
    language_version = sub.language_version;
    status = describe sub.status_code;
    stdout = sub.stdout;
    stderr = sub.stderr;
    stdout_truncated = sub.stdout_truncated;
    stderr_truncated = sub.stderr_truncated;
    compile_output = sub.compile_output;
    compile_output_truncated = sub.compile_output_truncated;
    message = sub.message;
    exit_code = sub.exit_code;
    exit_signal = sub.exit_signal;
    time_ms = sub.time_ms;
    wall_time_ms = sub.wall_time_ms;
    memory_kb = sub.memory_kb;
    created_at = format_time sub.created_at;
    queued_at = format_time_ptr sub.queued_at;
    started_at = format_time_ptr sub.started_at;
    finished_at = format_time_ptr sub.finished_at;
    limits = sub.limits;
    arguments = sub.arguments;
    compiler_options = sub.compiler_options;
  }

  unfoldable pub to_list_response : ListResult → ListResponse
  unfolding to_response
  to_list_response result = record {
    submissions = map to_response result.submissions;
    pagination = record { limit = result.limit; next_before = result.next_before };
  }

  unfoldable pub to_attempt_response : CallbackAttempt → CallbackAttemptResponse
  to_attempt_response attempt = record {
    id = attempt.id;
    attempt = attempt.attempt;
    status_code = attempt.status_code;
    error = attempt.error;
    created_at = format_time attempt.created_at;
  }

  unfoldable pub to_callback_attempts_response :
      Str → List CallbackAttempt → CallbackAttemptsResponse
  unfolding to_attempt_response
  to_callback_attempts_response token attempts = record {
    submission_token = token;
    attempts = map to_attempt_response attempts;
  }

-- The copy that ToResultResponse makes.
unfoldable pub completed : Submission → SubmissionResult → Submission
completed sub result = record sub {
  status_code = result.status_code;
  stdout = result.stdout;
  stderr = result.stderr;
  stdout_truncated = result.stdout_truncated;
  stderr_truncated = result.stderr_truncated;
  compile_output = result.compile_output;
  compile_output_truncated = result.compile_output_truncated;
  message = result.message;
  exit_code = result.exit_code;
  exit_signal = result.exit_signal;
  time_ms = result.time_ms;
  wall_time_ms = result.wall_time_ms;
  memory_kb = result.memory_kb;
  finished_at = some result.finished_at;
  updated_at = result.finished_at;
}

unfoldable pub to_result_response : (Time → Str) → Submission → SubmissionResult → Response
unfolding to_response completed
to_result_response format_time sub result = to_response format_time (completed sub result)
