-- ===== src/Api/Answers.antt =====
-- What the handlers of internal/httpapi write: respond.go and the mapping of errors that they share.
use batasd.Common.{ℕ, Bool, List, Option, none, some}
use batasd.Common.Int.{ℤ}
use batasd.Common.Str.{Str, lit}
use batasd.Common.Errors.{Error, validation, wrap, suffix, error_text}
use batasd.Submission.Response.{
  Response, CallbackAttemptsResponse, ListResponse, Selection, SelectedList, CreatedResponse,
}
use batasd.Status.{Status}
use batasd.Language.{Language}
use batasd.Submission.Model.{Limits}
use batasd.Worker.Monitor.{WorkerState}

-- The members of the map of publicConfig, each under the map that it stands in.
pub record PublicConfig : Type 0 where
  pub environment : Str
  pub http_max_body_bytes : ℤ
  pub sandbox_driver : Str
  pub sandbox_docker_image : Str
  pub sandbox_isolate_cgroup : Bool
  pub default_limits : Limits
  pub max_limits : Limits
  pub wait_timeout_ms : ℤ
  pub wait_poll_interval_ms : ℤ
  pub callback_timeout_ms : ℤ

-- The values that are encoded as JSON.
pub data Body : Type 0 where
  failed : (code message : Str) → Body
  healthy : Body
  authenticated : Body
  languages : List Language → Body
  language : Language → Body
  statuses : List Status → Body
  public_config : PublicConfig → Body
  system : (environment sandbox : Str) → Body
  workers : (configured pending active : ℤ) (workers : List WorkerState) → Body
  response : Response → Body
  selection : Selection → Body
  page : ListResponse → Body
  selected_page : SelectedList → Body
  created : CreatedResponse → Body
  attempts : CallbackAttemptsResponse → Body

-- The status, the WWW-Authenticate header and the body.
pub record Answer : Type 0 where
  pub status : ℕ
  pub challenge : Option Str
  pub body : Body

unfoldable pub write_json : ℕ → Body → Answer
write_json status body = record { status = status; challenge = none; body = body }

unfoldable pub write_error : ℕ → Str → Str → Answer
unfolding write_json
write_error status code message = write_json status (failed code message)

-- `errors.As(err, &validation)`: the text of the validation error in the chain.
unfoldable pub validation_text : Error → Option Str
unfolding error_text
validation_text (validation field message) = some (error_text (validation field message))
validation_text (wrap prefix e) = validation_text e
validation_text (suffix e rest) = validation_text e
validation_text _ = none

-- A validation error is the client's; what else there is depends on the handler.
unfoldable pub write_validation_or : Answer → Error → Answer
unfolding write_error validation_text
write_validation_or otherwise e = elim (validation_text e) [
  | some message ↦ write_error 422 (lit "validation_failed") message
  | none ↦ otherwise
]

unfoldable pub query_error : Error → Answer
unfolding write_validation_or write_error
query_error e =
    write_validation_or (write_error 400 (lit "invalid_query") (lit "query parameters are invalid"))
      e

unfoldable pub internal_error : Str → Error → Answer
unfolding write_validation_or write_error
internal_error message e = write_validation_or (write_error 500 (lit "internal_error") message) e
