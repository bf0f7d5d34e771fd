-- ===== src/Api/Submissions/Created.antt =====
-- What the Create handler of internal/httpapi/submissions.go answers, and what it leaves behind.
use batasd.Api.Submissions.Refused.{
  IsValidation, FailsValid, parse_submission_fields-FailsValid, parse_submission_wait-FailsValid,
}
use batasd.Api.Submissions.Outcome.{
  created_by, IsRefused, IsRead, HasWaitStatus, Outcome, bad_query, big_body, bad_body, not_created,
  shown, waited,
}
use batasd.Common.{
  ℕ, Bool, true, false, List, Option, none, some, if◌then◌else◌, is_some, ◌≡◌, inl, inr, refl,
  Option-cases, Bool-cases, ◌||◌,
}
use batasd.Common.Str.{Str, lit}
use batasd.Common.Errors.{Error, is_canceled, is_deadline_exceeded, Result, ok, err}
use batasd.Submission.Model.{CreateRequest, Submission}
use batasd.Submission.Response.{to_created_response}
use batasd.Api.Answers.{
  failed, write_json, write_error, Answer, query_error, internal_error, validation_text,
  write_validation_or,
}
use batasd.Api.Fields.{parse_submission_fields}
use batasd.Api.Submissions.{
  malformed_error, too_large_error, create_parsed, wait_and_fields, Request, Decoded, decoded,
  too_large, malformed, SubmissionHandler, parse_submission_wait, parse_create, create_decoded,
  after_create, wait_for_created_submission, create_submission, wait_answer,
}

module _ {W : Type 0} (h : SubmissionHandler W) where
  internal_error-status :
      (message : Str) (e : Error)
      → (internal_error message e).status ≡ (if is_some (validation_text e) then 422 else 500)
  unfolding internal_error write_validation_or write_error write_json
  internal_error-status message e = elim (Option-cases (validation_text e)) [
    | inl none_there ↦ rw (none_there, internal_error, write_validation_or) refl
    | inr (text, found) ↦ rw (found, internal_error, write_validation_or) refl
  ]

  wait_answer-HasWaitStatus :
      (sub : Submission) (fields : Option (List Str))
      (returned : Option (Option Submission × Option Error))
      → HasWaitStatus h returned (elim returned as (λ o. Option Answer) [
        | none ↦ none
        | some a ↦ some (wait_answer h sub fields a)
      ])
  unfolding wait_answer write_json
  wait_answer-HasWaitStatus sub fields none = refl
  wait_answer-HasWaitStatus sub fields (some (latest, none)) = (_, refl, refl)
  wait_answer-HasWaitStatus sub fields (some (latest, some e)) =
      elim (Bool-cases (is_deadline_exceeded e || is_canceled e)) [
        | inl over ↦ rw (over, wait_answer) (_, refl, refl)
        | inr broken ↦
            rw (broken, wait_answer)
              (_, refl, internal_error-status (lit "could not wait for submission") e)
      ]

  query_error_lem :
      (e : Error) (message : Str)
      → validation_text e ≡ some message
      → ((query_error e).status ≡ 422)
        × ((query_error e).body ≡ failed (lit "validation_failed") message)
  unfolding query_error write_validation_or write_error write_json
  query_error_lem e message found = rw (found, query_error, write_validation_or) (refl, refl)

  module _ (fuel : ℕ) (r : Request) (w : W) where
    after_create-Outcome :
        (request : CreateRequest) (result : Result Submission) (w' : W)
        (waits : Option (Option (List Str)))
        → (waits ≡ none → parse_submission_wait r ≡ ok false)
        → ((fields : Option (List Str))
            → waits ≡ some fields
            → (parse_submission_wait r ≡ ok true)
              × (parse_submission_fields h.quote (r.query (lit "fields")) ≡ ok fields))
        → r.body ≡ decoded request
        → created_by h request w ≡ (result, w')
        → Outcome h fuel r w (after_create h fuel waits result w')
    unfolding after_create write_json to_created_response wait_for_created_submission
    after_create-Outcome request (err e) w' none shows waits_for sent made =
        not_created request e w' _ (inl (shows refl)) sent made
          (internal_error-status (lit "could not create submission") e)
    after_create-Outcome request (err e) w' (some fields) shows waits_for sent made =
        not_created request e w' _
          (inr (fields, (waits_for fields refl).0, (waits_for fields refl).1)) sent made
          (internal_error-status (lit "could not create submission") e)
    after_create-Outcome request (ok sub) w' none shows waits_for sent made =
        shown request sub w' _ (shows refl) sent made refl refl
    after_create-Outcome request (ok sub) w' (some fields) shows waits_for sent made =
        let (wait, chosen) = waits_for fields refl in
        waited request sub w' fields wait chosen sent made (wait_answer-HasWaitStatus sub fields _)

    create_decoded-Outcome :
        (waits : Option (Option (List Str))) (body : Decoded)
        → (waits ≡ none → parse_submission_wait r ≡ ok false)
        → ((fields : Option (List Str))
            → waits ≡ some fields
            → (parse_submission_wait r ≡ ok true)
              × (parse_submission_fields h.quote (r.query (lit "fields")) ≡ ok fields))
        → IsRead h r
        → r.body ≡ body
        → Outcome h fuel r w (create_decoded h fuel waits body w)
    unfolding create_decoded too_large_error malformed_error write_error write_json
    create_decoded-Outcome waits too_large shows waits_for read sent =
        big_body _ read sent (refl, _, refl)
    create_decoded-Outcome waits malformed shows waits_for read sent =
        bad_body _ read sent (refl, _, refl)
    create_decoded-Outcome waits (decoded request) shows waits_for read sent =
        after_create-Outcome request _ _ waits shows waits_for sent refl

    refused-Outcome :
        (e : Error)
        → IsValidation e
        → IsRefused h r e
        → Outcome h fuel r w (some (query_error e), w)
    refused-Outcome e (message, found) refused =
        let (status, body) = query_error_lem e message found in
        bad_query e _ message refused found status body

    create_parsed-Outcome :
        (wait : Result Bool) (fields : Result (Option (List Str)))
        → parse_submission_wait r ≡ wait
        → parse_submission_fields h.quote (r.query (lit "fields")) ≡ fields
        → FailsValid wait
        → FailsValid fields
        → Outcome h fuel r w (create_parsed h fuel (wait_and_fields h wait fields) r.body w)
    unfolding create_parsed wait_and_fields
    create_parsed-Outcome (err e) fields p q f g = refused-Outcome e f (inl p)
    create_parsed-Outcome (ok false) fields p q f g =
        create_decoded-Outcome none r.body (λ _. p) (λ fields e. absurd (cc)) (inl p) refl
    create_parsed-Outcome (ok true) (err e) p q f g = refused-Outcome e g (inr (p, q))
    create_parsed-Outcome (ok true) (ok fields) p q f g =
        create_decoded-Outcome (some fields) r.body (λ e. absurd (cc)) (λ chosen e. (p, cc))
          (inr (fields, p, q)) refl

-- However a POST of a submission ends: a query that cannot be read is answered with 422 and the text of
-- the validation error, and, when the query is read, a body beyond the limit is answered with 413 and
-- one that is malformed with 400; then nothing is changed. Otherwise the decoded request goes to
-- Create, whose error is answered with 422 if there is a validation error in its chain of causes and
-- with 500 if not. The submission that Create makes is shown with 201, its token and its status if
-- the query does not ask to wait, and is waited for, with the chosen fields, if it does: a wait that
-- goes well is answered with 201, one that runs out or is canceled with 202, and one that fails
-- otherwise as an error of Create is.
pub create_submission-Outcome :
    {W : Type 0} (h : SubmissionHandler W) (fuel : ℕ) (r : Request) (w : W)
    → Outcome h fuel r w (create_submission h fuel r w)
unfolding create_submission parse_create
create_submission-Outcome h fuel r w =
    create_parsed-Outcome h fuel r w _ _ refl refl (parse_submission_wait-FailsValid r)
      (parse_submission_fields-FailsValid h.quote (r.query (lit "fields")))
