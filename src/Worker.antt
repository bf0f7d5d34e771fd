-- ===== src/Worker.antt =====
-- internal/callback/callback.go and the processing of one token of internal/worker/worker.go, on the
-- tables and on the rest of the world. What is only logged is left out.
pub mod Delivery
pub mod Lifecycle
pub mod Monitor
pub mod Loop
pub mod Payload
use batasd.Common.{
  not, ℕ, suc, ◌&&◌, ◌||◌, Bool, List, [], ◌∷◌, ◌++◌, Option, none, some, if◌then◌else◌,
}
use batasd.Common.Int.{ℤ, pos, ltb_ℤ}
use batasd.Common.Str.{Str, lit, str_eq, is_empty, trim_space, format_int}
use batasd.Common.Errors.{Error, error_text, other, wrap, suffix, Result, ok, err}
use batasd.Submission.Model.{Time, Submission, SubmissionResult, CallbackAttempt}
use batasd.Submission.Response.{Response, to_result_response}
use batasd.Store.{Database, find_row, mark_processing, store_result}
use batasd.Status.{queued}

-- The engine, the clock, the format time.RFC3339Nano and an HTTP post of a payload, in a world X. The
-- post answers with a status, or with the error of the step that failed, its prefix included. `insert`
-- is how the database answers to the insertion of an attempt: with an error, or with none.
pub record Outside (X : Type 0) : Type 0 where
  pub now : X → Time × X
  pub engine : Submission → X → SubmissionResult × X
  pub format_time : Time → Str
  pub post : Str → Response → X → Result ℤ × X
  pub insert : CallbackAttempt → X → Option Error × X

-- The table of attempts behind an insertion.
unfoldable pub inserted : CallbackAttempt → Option Error → Database → Database
inserted attempt (some e) db = db
inserted attempt none db = record db {
  attempts = db.attempts ++ (record attempt { id = pos db.next_id } ∷ []);
  next_id = suc db.next_id;
}

-- What Deliver returns, for the error of the post and that of the recording.
unfoldable pub delivery_error : Option Error → Option Error → Option Error
unfolding error_text
delivery_error failure none = failure
delivery_error none (some e) = some (wrap (lit "record callback attempt: ") e)
delivery_error (some failure) (some e) =
    some (suffix failure (lit "; record callback attempt: " ++ error_text e))

-- The attempt row for what the post gave, and the error that Deliver returns.
unfoldable pub attempt_of : Str → Time → Result ℤ → CallbackAttempt × Option Error
unfolding error_text format_int
attempt_of token at (err e) = (
  record {
    id = pos 0;
    submission_token = token;
    attempt = pos 1;
    status_code = none;
    error = some (error_text e);
    created_at = at;
  },
  some e,
)
attempt_of token at (ok code) = (
  record {
    id = pos 0;
    submission_token = token;
    attempt = pos 1;
    status_code = some code;
    error =
        if ltb_ℤ code (pos 200) || not (ltb_ℤ code (pos 300))
        then some (lit "callback returned status " ++ format_int code)
        else none;
    created_at = at;
  },
  if ltb_ℤ code (pos 200) || not (ltb_ℤ code (pos 300))
      then some (other (lit "callback returned status " ++ format_int code))
      else none,
)

unfoldable pub target : Option Str → Str
unfolding trim_space
target none = []
target (some url) = trim_space url

module _ {X : Type 0} (o : Outside X) where
  -- CreateCallbackAttempt; the attempt has its time.
  unfoldable pub create_callback_attempt :
      CallbackAttempt → Database × X → Option Error × (Database × X)
  unfolding inserted
  create_callback_attempt attempt (db, x) =
      let answer = o.insert attempt x in (answer.0, (inserted attempt answer.0 db, answer.1))

  -- Deliver, when the trimmed URL is not empty.
  post_to : Str → Submission → SubmissionResult → Database × X → Option Error × (Database × X)
  unfolding attempt_of create_callback_attempt delivery_error to_result_response
  post_to [] sub r (db, x) = (none, (db, x))
  post_to (a ∷ url) sub r (db, x) =
      let at = o.now x in
      let answer = o.post (a ∷ url) (to_result_response o.format_time sub r) at.1 in
      let attempt = attempt_of sub.token at.0 answer.0 in
      let recorded = create_callback_attempt attempt.0 (db, answer.1) in
      (delivery_error attempt.1 recorded.0, recorded.1)

  unfoldable pub deliver :
      Submission → SubmissionResult → Database × X → Option Error × (Database × X)
  unfolding post_to target
  deliver sub r w = post_to (target sub.callback_url) sub r w

  -- `if err != nil { return }`, for a statement on the rows.
  on_rows : Result (List Submission) → (Database × X → Database × X) → Database × X → Database × X
  on_rows (err e) next w = w
  on_rows (ok rows) next (db, x) = next (record db { submissions = rows }, x)

  deliver_result : Submission → SubmissionResult → Database × X → Database × X
  unfolding deliver
  deliver_result sub r w = (deliver sub r w).1

  store_and_deliver : Str → Submission → SubmissionResult → Database × X → Database × X
  unfolding on_rows store_result deliver_result
  store_and_deliver token sub r w =
      on_rows (store_result token r w.0.submissions) (deliver_result sub r) w

  run_engine : Str → Submission → Database × X → Database × X
  unfolding store_and_deliver
  run_engine token sub (db, x) =
      let done = o.engine sub x in store_and_deliver token sub done.0 (db, done.1)

  start : Str → Submission → Database × X → Database × X
  unfolding on_rows mark_processing run_engine
  start token sub (db, x) =
      let at = o.now x in
      on_rows (mark_processing token at.0 db.submissions) (run_engine token sub) (db, at.1)

  fetched : Str → Result Submission → Database × X → Database × X
  unfolding start str_eq
  fetched token (err e) w = w
  fetched token (ok sub) w = if str_eq sub.status_code queued then start token sub w else w

  unfoldable pub process : Str → Database × X → Database × X
  unfolding fetched find_row
  process token w = fetched token (find_row token w.0.submissions) w
