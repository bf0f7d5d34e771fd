-- ===== src/Store.antt =====
-- The statements of internal/repository/postgres/submissions.go on the tables that they read and
-- write. A token is the primary key of `submissions`; a sort keeps the order of rows that tie. A row
-- has the times that a statement was given, where the columns keep microseconds.
pub mod Rows
pub mod Recovery
pub mod Listing
pub mod Attempts
use batasd.Common.{
  ℕ, suc, ◌+◌, Bool, true, false, ◌&&◌, ◌||◌, List, [], ◌∷◌, ◌++◌, Option, none, some,
  if◌then◌else◌, ltb, ◌==◌, length, take, map,
}
use batasd.Common.Int.{ℤ, pos, negsuc, ltb_ℤ}
use batasd.Common.Str.{Str, lit, str_eq, is_empty}
use batasd.Common.Errors.{Error, not_found, other, Result, ok, err}
use batasd.Submission.Model.{
  Time, Submission, SubmissionResult, ListQuery, ListResult, CallbackAttempt,
}
use batasd.Status.{queued, processing}
use batasd.Language.Sorting.{str_lt}

pub record Database : Type 0 where
  pub submissions : List Submission
  pub attempts : List CallbackAttempt
  pub next_id : ℕ

unfoldable pub has_token : Str → List Submission → Bool
unfolding str_eq
has_token token [] = false
has_token token (row ∷ rows) = str_eq row.token token || has_token token rows

-- The INSERT leaves the columns of the result at their defaults.
unfoldable pub inserted : Submission → Submission
inserted sub = record {
  token = sub.token;
  language = sub.language;
  language_version = sub.language_version;
  source = sub.source;
  input = sub.input;
  expected_output = sub.expected_output;
  arguments = sub.arguments;
  compiler_options = sub.compiler_options;
  limits = sub.limits;
  additional_files = sub.additional_files;
  callback_url = sub.callback_url;
  status_code = sub.status_code;
  stdout = none;
  stderr = none;
  stdout_truncated = false;
  stderr_truncated = false;
  compile_output = none;
  compile_output_truncated = false;
  message = none;
  exit_code = none;
  exit_signal = none;
  time_ms = none;
  wall_time_ms = none;
  memory_kb = none;
  created_at = sub.created_at;
  queued_at = sub.queued_at;
  started_at = none;
  finished_at = none;
  updated_at = sub.updated_at;
}

unfoldable pub create_row : Submission → List Submission → Result (List Submission)
unfolding has_token inserted
create_row sub rows =
    if has_token sub.token rows
    then err (other (lit "duplicate key value violates unique constraint"))
    else ok (rows ++ (inserted sub ∷ []))

unfoldable pub find_row : Str → List Submission → Result Submission
unfolding str_eq
find_row token [] = err not_found
find_row token (row ∷ rows) = if str_eq row.token token then ok row else find_row token rows

-- `UPDATE submissions SET ... WHERE token = $1`.
unfoldable pub update_rows : Str → (Submission → Submission) → List Submission → List Submission
unfolding str_eq
update_rows token set [] = []
update_rows token set (row ∷ rows) =
    (if str_eq row.token token then set row else row) ∷ update_rows token set rows

-- No affected row is ErrNotFound.
unfoldable pub update : Str → (Submission → Submission) → List Submission → Result (List Submission)
unfolding has_token update_rows
update token set rows =
    if has_token token rows then ok (update_rows token set rows) else err not_found

unfoldable pub set_processing : Time → Submission → Submission
set_processing started_at row = record row {
  status_code = processing;
  started_at = some started_at;
  updated_at = started_at;
}

unfoldable pub set_result : SubmissionResult → Submission → Submission
set_result r row = record row {
  status_code = r.status_code;
  stdout = r.stdout;
  stderr = r.stderr;
  stdout_truncated = r.stdout_truncated;
  stderr_truncated = r.stderr_truncated;
  compile_output = r.compile_output;
  compile_output_truncated = r.compile_output_truncated;
  message = r.message;
  exit_code = r.exit_code;
  exit_signal = r.exit_signal;
  time_ms = r.time_ms;
  wall_time_ms = r.wall_time_ms;
  memory_kb = r.memory_kb;
  finished_at = some r.finished_at;
  updated_at = r.finished_at;
}

unfoldable pub mark_processing : Str → Time → List Submission → Result (List Submission)
unfolding update set_processing
mark_processing token started_at rows = update token (set_processing started_at) rows

unfoldable pub store_result : Str → SubmissionResult → List Submission → Result (List Submission)
unfolding update set_result
store_result token r rows = update token (set_result r) rows

abbrev pub or_time : Option Time → Time → Option Time
or_time none t = some t
or_time (some s) t = some s

unfoldable pub is_unfinished : Submission → Bool
unfolding str_eq
is_unfinished row = str_eq row.status_code queued || str_eq row.status_code processing

unfoldable pub set_recovered : Time → Submission → Submission
set_recovered recovered_at row = record row {
  status_code = queued;
  queued_at = or_time row.queued_at recovered_at;
  started_at = none;
  updated_at = recovered_at;
}

unfoldable pub recover_rows : Time → List Submission → List Submission
unfolding is_unfinished set_recovered
recover_rows recovered_at [] = []
recover_rows recovered_at (row ∷ rows) =
    (if is_unfinished row then set_recovered recovered_at row else row)
    ∷ recover_rows recovered_at rows

unfoldable pub unfinished_rows : List Submission → List Submission
unfolding is_unfinished
unfinished_rows [] = []
unfinished_rows (row ∷ rows) =
    let rest = unfinished_rows rows in if is_unfinished row then row ∷ rest else rest

-- `ORDER BY created_at ASC`.
unfoldable pub insert_oldest : Submission → List Submission → List Submission
insert_oldest x [] = x ∷ []
insert_oldest x (y ∷ ys) =
    if ltb y.created_at x.created_at then y ∷ insert_oldest x ys else x ∷ y ∷ ys

unfoldable pub oldest_first : List Submission → List Submission
unfolding insert_oldest
oldest_first [] = []
oldest_first (x ∷ xs) = insert_oldest x (oldest_first xs)

-- The rows behind the statement, and the tokens that it returns.
unfoldable pub recover_unfinished : Time → List Submission → List Str × List Submission
unfolding recover_rows unfinished_rows oldest_first
recover_unfinished recovered_at rows =
    (map (λ row. row.token) (oldest_first (unfinished_rows rows)), recover_rows recovered_at rows)
