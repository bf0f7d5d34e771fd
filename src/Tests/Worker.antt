-- ===== src/Tests/Worker.antt =====
-- One token through the worker, on two rows and the engine of the test machine.
use batasd.Common.Errors.{is_canceled}
use batasd.Common.{
  ◌/◌, ◌*◌, ℕ, none, List, [], ◌∷◌, Option, some, ◌≡◌, ◌≢◌, ◌⊎◌, refl, true, false, All,
}
use batasd.Common.Int.{pos}
use batasd.Common.Str.{Str, lit, str_eq, str_eq_iff}
use batasd.Common.Errors.{Error, err, Result, ok}
use batasd.Submission.Model.{Submission, SubmissionResult}
use batasd.Execution.Engine.{run}
use batasd.Execution.Engine.Outcome.{run-IsFinal}
use batasd.Language.{Runtime}
use batasd.Status.{queued, terminal, valid}
use batasd.Store.{Database, find_row, has_token}
use batasd.Store.{recover_unfinished}
use batasd.Store.Recovery.{IsRecovered, recover_unfinished-IsRecovered}
use batasd.Store.Rows.{IsUnique}
use batasd.Worker.{Outside, process, deliver, target}
use batasd.Worker.Delivery.{IsRecorded, IsUnrecorded, deliver_cases}
use batasd.Execution.Judge.{result}
use batasd.Worker.Payload.{stored_row, payload-stored}
use batasd.Submission.Response.{Response, to_response, to_result_response}
use batasd.Worker.Monitor.{new_monitor, find_worker, stopped}
use batasd.Worker.Loop.{LoopState, run_worker}
use batasd.Worker.Loop.Laws.{process_all, run_worker_cases}
use batasd.Worker.Lifecycle.{processed, process_cases, process_other}
use batasd.Worker.Lifecycle.Consistency.{IsConsistent, process-IsConsistent}
use batasd.Tests.Fixtures.{machine, World, runtime, submission}

abbrev languages : Str → Str → Option Runtime
languages slug version = some runtime

abbrev outside : Outside World
outside = record {
  now = λ w. (5, w);
  engine = λ sub w. run machine (lit "/w") languages sub w;
  format_time = λ at. lit "now";
  post = λ url payload w. (ok (pos 200), url ∷ w);
  insert = λ attempt w. (none, w);
}

abbrev second : Submission
second = record submission { token = lit "sub_b" }

abbrev rows : List Submission
rows = submission ∷ second ∷ []

abbrev before : Database × World
before = (record { submissions = rows; attempts = []; next_id = 1 }, [])

process_cases_example :
    ((process outside (lit "sub_b") before ≡ before)
      × ((sub : Submission)
          → find_row (lit "sub_b") before.0.submissions ≡ ok sub
          → sub.status_code ≢ queued))
    ⊎ ((sub : Submission) × (find_row (lit "sub_b") before.0.submissions ≡ ok sub)
        × (sub.status_code ≡ queued)
        × (find_row (lit "sub_b") (process outside (lit "sub_b") before).0.submissions
            ≡ ok (processed outside sub [])))
process_cases_example = process_cases outside (lit "sub_b") before

apart : lit "sub_a" ≢ lit "sub_b"
unfolding str_eq
apart e = let same : false ≡ true = (str_eq_iff (lit "sub_a") (lit "sub_b")).1 e in absurd (cc)

process_other_example :
    find_row (lit "sub_a") (process outside (lit "sub_b") before).0.submissions
    ≡ find_row (lit "sub_a") before.0.submissions
process_other_example = process_other outside (lit "sub_a") (lit "sub_b") before apart

submission-IsConsistent : IsConsistent submission
unfolding terminal valid str_eq
submission-IsConsistent = record {
  known = refl;
  fresh = λ e. refl;
  marked = λ e. absurd (cc);
  unfinished = λ e. refl;
  over = λ e. absurd (cc);
}

second-IsConsistent : IsConsistent second
second-IsConsistent = record {
  known = submission-IsConsistent.known;
  fresh = λ e. refl;
  marked = submission-IsConsistent.marked;
  unfinished = λ e. refl;
  over = submission-IsConsistent.over;
}

rows-IsUnique : IsUnique rows
unfolding has_token str_eq
rows-IsUnique = (refl, (refl, tt))

process-IsConsistent_example :
    IsUnique (process outside (lit "sub_b") before).0.submissions
    × All IsConsistent (process outside (lit "sub_b") before).0.submissions
process-IsConsistent_example =
    process-IsConsistent outside (lit "sub_b") before
      (λ sub w. run-IsFinal machine (lit "/w") languages sub w) rows-IsUnique
      (submission-IsConsistent, (second-IsConsistent, tt))

recovered_test : (recover_unfinished 9 rows).0 ≡ lit "sub_a" ∷ lit "sub_b" ∷ []
unfolding recover_unfinished str_eq
recovered_test = refl

recover_unfinished-IsRecovered_example :
    All (IsRecovered (recover_unfinished 9 rows).0) (recover_unfinished 9 rows).1
recover_unfinished-IsRecovered_example = recover_unfinished-IsRecovered 9 rows

abbrev calls_back : Submission
calls_back = record submission { callback_url = some (lit " http://h/ ") }

abbrev processed_result : SubmissionResult
processed_result = result (lit "accepted") 8 []

deliver_cases_example :
    ((target (some (lit " http://h/ ")) ≡ [])
      × (deliver outside calls_back processed_result before ≡ (none, before)))
    ⊎ IsRecorded outside calls_back
        (deliver outside calls_back processed_result before).1.0.attempts
        (deliver outside calls_back processed_result before).0
        []
    ⊎ IsUnrecorded outside calls_back
        (deliver outside calls_back processed_result before).1.0.attempts
        (deliver outside calls_back processed_result before).0
        []
deliver_cases_example = deliver_cases outside calls_back processed_result before

abbrev events : List (Result Str)
events = ok (lit "sub_b") ∷ err Error.deadline_exceeded ∷ err Error.canceled ∷ ok (lit "sub_a") ∷ []

abbrev started : LoopState World
started = record { world = before; monitor = new_monitor 2; finished = 0 }

run_worker_cases_example :
    ((run_worker outside 1 events started).world ≡ process_all outside 1 (lit "sub_b" ∷ []) before)
    × ((run_worker outside 1 events started).finished ≡ 1)
    × (find_worker 1 (run_worker outside 1 events started).monitor ≡ some (stopped 1))
unfolding process is_canceled
run_worker_cases_example = run_worker_cases outside 1 events started

abbrev done : SubmissionResult
unfolding result
done = result (lit "accepted") 9 (lit "fine")

abbrev time_text : ℕ → Str
time_text at = lit "now"

abbrev payload : Response
unfolding to_result_response
payload = to_result_response time_text submission done

-- A time without its last three digits, which a column that keeps microseconds drops.
abbrev microseconds : ℕ → ℕ
microseconds at = at / 1000 * 1000

payload-stored_example :
    let fetched = to_response time_text (stored_row microseconds submission 5 done) in
    (record payload { started_at = fetched.started_at; finished_at = fetched.finished_at }
      ≡ fetched)
    × (fetched.started_at ≡ some (time_text (microseconds 5)))
    × (fetched.finished_at ≡ some (time_text (microseconds 5)))
    × (payload.finished_at ≡ some (time_text 5))
    × (submission.started_at ≡ none → payload.started_at ≡ none)
unfolding payload to_result_response to_response
payload-stored_example = payload-stored time_text microseconds submission 5 done
