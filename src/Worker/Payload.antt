-- ===== src/Worker/Payload.antt =====
-- The payload that internal/callback/callback.go posts, against the row that
-- internal/worker/worker.go leaves in the table.
use batasd.Common.{none, some, ◌≡◌, refl}
use batasd.Common.Str.{Str}
use batasd.Submission.Model.{Time, Submission, SubmissionResult}
use batasd.Submission.Response.{to_response, to_result_response, completed}
use batasd.Store.{set_processing, set_result}

-- The row of a processed submission, in columns that keep `column at` of a time `at`: a timestamptz
-- has no nanoseconds.
unfoldable pub stored_row : (Time → Time) → Submission → Time → SubmissionResult → Submission
unfolding set_result set_processing
stored_row column sub at r =
    set_result (record r { finished_at = column r.finished_at }) (set_processing (column at) sub)

-- For the row `sub` that a worker fetched, a start at `at` and the result `r`, and whatever the columns
-- keep of a time: the payload is what a fetch of the stored row answers in all members but two. Its
-- `started_at` is still what the row had when it was fetched, where a fetch of the stored row has the
-- start; and its `finished_at` is the time of the result, where a fetch has what the column keeps of
-- it.
pub payload-stored :
    (format_time : Time → Str) (column : Time → Time) (sub : Submission) (at : Time)
    (r : SubmissionResult)
    → let payload = to_result_response format_time sub r in
      let fetched = to_response format_time (stored_row column sub at r) in
      (record payload { started_at = fetched.started_at; finished_at = fetched.finished_at }
        ≡ fetched)
      × (fetched.started_at ≡ some (format_time (column at)))
      × (fetched.finished_at ≡ some (format_time (column r.finished_at)))
      × (payload.finished_at ≡ some (format_time r.finished_at))
      × (sub.started_at ≡ none → payload.started_at ≡ none)
unfolding to_result_response to_response completed stored_row set_result set_processing
payload-stored format_time column sub at r = (refl, refl, refl, refl, λ e. rw e refl)
