-- ===== src/Api/Submissions/Outcome.antt =====
-- The ways in which the Create handler of internal/httpapi/submissions.go can end.
use batasd.Common.{ℕ, true, false, List, Option, none, some, if◌then◌else◌, is_some, ◌≡◌, ◌⊎◌, ◌||◌}
use batasd.Common.Str.{Str, lit}
use batasd.Common.Errors.{Error, is_canceled, is_deadline_exceeded, Result, ok, err}
use batasd.Submission.Model.{CreateRequest, Submission}
use batasd.Submission.Service.{create, wait_for_completion}
use batasd.Status.{describe}
use batasd.Api.Answers.{failed, created, Answer, validation_text}
use batasd.Api.Fields.{parse_submission_fields}
use batasd.Api.Submissions.{
  Request, decoded, too_large, malformed, SubmissionHandler, parse_submission_wait,
  wait_for_created_submission, wait_timeout,
}

module _ {W : Type 0} (h : SubmissionHandler W) where
  -- The service's Create on a request.
  abbrev pub created_by : CreateRequest → W → Result Submission × W
  created_by request = create h.backend h.languages h.default_limits h.max_limits request

  -- A request's query cannot be read: `wait` is no Boolean, or `fields` is not acceptable in a request
  -- that waits.
  abbrev pub IsRefused : Request → Error → Type 0
  IsRefused r e =
      (parse_submission_wait r ≡ err e)
      ⊎ ((parse_submission_wait r ≡ ok true)
          × (parse_submission_fields h.quote (r.query (lit "fields")) ≡ err e))

  -- The status and the body of a refused request.
  abbrev pub IsRefusal : Answer → ℕ → Str → Type 0
  IsRefusal a status code = (a.status ≡ status) × (message : Str) × (a.body ≡ failed code message)

  -- The query is read.
  abbrev pub IsRead : Request → Type 0
  IsRead r =
      (parse_submission_wait r ≡ ok false)
      ⊎ ((fields : Option (List Str)) × (parse_submission_wait r ≡ ok true)
          × (parse_submission_fields h.quote (r.query (lit "fields")) ≡ ok fields))

  -- The status for what the wait returned: 201 without an error, 202 when the wait ran out or was
  -- canceled, and for another error as for one of Create. `none` is a wait that goes on.
  abbrev pub HasWaitStatus : Option (Option Submission × Option Error) → Option Answer → Type 0
  HasWaitStatus none answer = answer ≡ none
  HasWaitStatus (some (sub, none)) answer = (a : Answer) × (answer ≡ some a) × (a.status ≡ 201)
  HasWaitStatus (some (sub, some e)) answer =
      (a : Answer) × (answer ≡ some a)
      × (a.status ≡ (
          if is_deadline_exceeded e || is_canceled e
          then 202
          else (if is_some (validation_text e) then 422 else 500)))

  -- The ways in which the handler ends: by refusing the query or the body, by an error of the
  -- service, by showing the new submission, or by waiting for it.
  pub data Outcome (fuel : ℕ) (r : Request) (w : W) : Option Answer × W → Type 0 where
    bad_query :
        (e : Error) (a : Answer) (message : Str)
        → IsRefused r e
        → validation_text e ≡ some message
        → a.status ≡ 422
        → a.body ≡ failed (lit "validation_failed") message
        → Outcome fuel r w (some a, w)
    big_body :
        (a : Answer)
        → IsRead r
        → r.body ≡ too_large
        → IsRefusal a 413 (lit "request_too_large")
        → Outcome fuel r w (some a, w)
    bad_body :
        (a : Answer)
        → IsRead r
        → r.body ≡ malformed
        → IsRefusal a 400 (lit "invalid_json")
        → Outcome fuel r w (some a, w)
    not_created :
        (request : CreateRequest) (e : Error) (w' : W) (a : Answer)
        → IsRead r
        → r.body ≡ decoded request
        → created_by request w ≡ (err e, w')
        → a.status ≡ (if is_some (validation_text e) then 422 else 500)
        → Outcome fuel r w (some a, w')
    shown :
        (request : CreateRequest) (sub : Submission) (w' : W) (a : Answer)
        → parse_submission_wait r ≡ ok false
        → r.body ≡ decoded request
        → created_by request w ≡ (ok sub, w')
        → a.status ≡ 201
        → a.body ≡ created (record { token = sub.token; status = describe sub.status_code })
        → Outcome fuel r w (some a, w')
    waited :
        (request : CreateRequest) (sub : Submission) (w' : W) (fields : Option (List Str))
        → parse_submission_wait r ≡ ok true
        → parse_submission_fields h.quote (r.query (lit "fields")) ≡ ok fields
        → r.body ≡ decoded request
        → created_by request w ≡ (ok sub, w')
        → HasWaitStatus
            (wait_for_completion
              (h.waiting (wait_timeout h.wait_timeout) h.wait_poll_interval)
              fuel
              sub.token
              w').0
            (wait_for_created_submission h fuel sub fields w').0
        → Outcome fuel r w (wait_for_created_submission h fuel sub fields w')
