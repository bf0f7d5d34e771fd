-- ===== src/Worker/Lifecycle/Consistency.antt =====
-- The columns of a submission that belong to its status, and the statements of
-- internal/repository/postgres/submissions.go and the worker that write them.
use batasd.Common.{
  true, false, List, [], ◌∷◌, ◌++◌, none, ◌≡◌, ◌⊎◌, inl, inr, refl, ap, subst, Bool-cases, is_some,
  All, All-append,
}
use batasd.Common.Str.{Str, str_eq, str_eq_iff}
use batasd.Common.Errors.{ok, ok_value}
use batasd.Submission.Model.{Time, Submission, SubmissionResult, CreateRequest, Limits}
use batasd.Submission.Service.Checks.{new_submission}
use batasd.Language.{Runtime}
use batasd.Store.{
  Database, set_processing, set_result, set_recovered, recover_rows, is_unfinished, create_row,
  inserted, has_token, update_rows,
}
use batasd.Store.Rows.{
  All-found, IsUnique, IsUnique-update_rows, All-update_rows, find_row-update_rows,
}
use batasd.Worker.{Outside, process}
use batasd.Worker.Lifecycle.{process_cases, process-rows}
use batasd.Execution.Judge.Laws.{IsFinal}
use batasd.Status.Laws.{terminal-eq-false_iff}
use batasd.Status.{queued, processing, terminal, valid}

-- A queued submission is not started, a started one that goes on has no end, and one whose status is
-- terminal has both.
pub record IsConsistent (row : Submission) : Type 0 where
  pub known : valid row.status_code ≡ true
  pub fresh : row.status_code ≡ queued → row.started_at ≡ none
  pub marked : row.status_code ≡ processing → is_some row.started_at ≡ true
  pub unfinished : terminal row.status_code ≡ false → row.finished_at ≡ none
  pub over :
      terminal row.status_code ≡ true
      → (is_some row.started_at ≡ true) × (is_some row.finished_at ≡ true)

waits_on : {s : Str} → s ≡ queued → terminal s ≡ false
unfolding terminal str_eq
waits_on e = ap terminal e

set_processing-IsConsistent :
    (at : Time) (row : Submission)
    → row.status_code ≡ queued
    → IsConsistent row
    → IsConsistent (set_processing at row)
unfolding set_processing terminal valid str_eq
set_processing-IsConsistent at row waits c = record {
  known = refl;
  fresh = λ e. absurd (cc);
  marked = λ e. refl;
  unfinished = λ e. c.unfinished (waits_on waits);
  over = λ e. absurd (cc);
}

set_result-IsConsistent :
    (r : SubmissionResult) (row : Submission)
    → IsFinal r.status_code
    → is_some row.started_at ≡ true
    → IsConsistent (set_result r row)
unfolding set_result
set_result-IsConsistent r row (over, known) started = record {
  known = known;
  fresh = λ e. absurd (let open_ : terminal r.status_code ≡ false = waits_on e in cc);
  marked = λ e. started;
  unfinished = λ e. absurd (cc);
  over = λ e. (started, refl);
}

is_unfinished-terminal :
    (row : Submission) → is_unfinished row ≡ true → terminal row.status_code ≡ false
unfolding is_unfinished
is_unfinished-terminal row h = (terminal-eq-false_iff row.status_code).1 (
    either (Bool-cases (str_eq row.status_code queued))
      (Bool-cases (str_eq row.status_code processing)))
  where
    either :
        (str_eq row.status_code queued ≡ true) ⊎ (str_eq row.status_code queued ≡ false)
        → (str_eq row.status_code processing ≡ true) ⊎ (str_eq row.status_code processing ≡ false)
        → (row.status_code ≡ queued) ⊎ (row.status_code ≡ processing)
    either (inl q) p = inl ((str_eq_iff row.status_code queued).0 q)
    either (inr q) (inl p) = inr ((str_eq_iff row.status_code processing).0 p)
    either (inr q) (inr p) = absurd (let none_of_them = rw (is_unfinished, q, p) at h in cc)

set_recovered-IsConsistent :
    (at : Time) (row : Submission)
    → is_unfinished row ≡ true
    → IsConsistent row
    → IsConsistent (set_recovered at row)
unfolding set_recovered terminal valid str_eq
set_recovered-IsConsistent at row test c = record {
  known = refl;
  fresh = λ e. refl;
  marked = λ e. absurd (cc);
  unfinished = λ e. c.unfinished (is_unfinished-terminal row test);
  over = λ e. absurd (cc);
}

-- Recovery keeps the rows consistent: the times of each belong to its status.
pub recover_rows-IsConsistent :
    (at : Time) (rows : List Submission)
    → All IsConsistent rows
    → All IsConsistent (recover_rows at rows)
unfolding recover_rows
recover_rows-IsConsistent at [] all = tt
recover_rows-IsConsistent at (row ∷ rows) (c, all) =
    let rest = recover_rows-IsConsistent at rows all in
    elim (Bool-cases (is_unfinished row)) [
      | inl test ↦ rw (test, recover_rows) (set_recovered-IsConsistent at row test c, rest)
      | inr done ↦ rw (done, recover_rows) (c, rest)
    ]

new_submission-IsConsistent :
    (req : CreateRequest) (lang : Runtime) (limits : Limits) (token : Str) (at : Time)
    → IsConsistent (inserted (new_submission req lang limits token at))
unfolding inserted new_submission terminal valid str_eq
new_submission-IsConsistent req lang limits token at = record {
  known = refl;
  fresh = λ e. refl;
  marked = λ e. absurd (cc);
  unfinished = λ e. refl;
  over = λ e. absurd (cc);
}

-- The row of a new submission joins consistent rows.
pub create_row-IsConsistent :
    (req : CreateRequest) (lang : Runtime) (limits : Limits) (token : Str) (at : Time)
    (rows rows' : List Submission)
    → create_row (new_submission req lang limits token at) rows ≡ ok rows'
    → All IsConsistent rows
    → All IsConsistent rows'
unfolding create_row
create_row-IsConsistent req lang limits token at rows rows' h all =
    let sub = new_submission req lang limits token at in
    elim (Bool-cases (has_token sub.token rows)) [
      | inl taken ↦ absurd (let e = rw (taken, create_row) at h in cc)
      | inr free ↦
          let e : ok (rows ++ (inserted sub ∷ [])) ≡ ok rows' = rw (free, create_row) at h in
          subst (All IsConsistent) (ok_value e) (
            All-append IsConsistent rows (inserted sub ∷ []) all
              (new_submission-IsConsistent req lang limits token at, tt))
    ]

module _ {X : Type 0} (o : Outside X) where
  -- Processing a token keeps all rows consistent and their tokens distinct, when the engine ends a
  -- submission in a terminal and public status, whatever the callback does.
  pub process-IsConsistent :
      (token : Str) (w : Database × X)
      → ((sub : Submission) (x : X) → IsFinal (o.engine sub x).0.status_code)
      → IsUnique w.0.submissions
      → All IsConsistent w.0.submissions
      → IsUnique (process o token w).0.submissions
        × All IsConsistent (process o token w).0.submissions
  unfolding set_result set_processing
  process-IsConsistent token w final unique all = elim (process_cases o token w) [
    | inl (same, _) ↦ rw same (unique, all)
    | inr (sub, found, waits, _) ↦
        let mark = set_processing (o.now w.1).0 in
        let finish = set_result (o.engine sub (o.now w.1).1).0 in
        let marked = update_rows token mark w.0.submissions in
        let marked_unique = IsUnique-update_rows token mark _ (λ row. refl) unique in
        let found_marked = find_row-update_rows token mark _ (λ row. refl) found in
        let c = All-found IsConsistent token w.0.submissions found all in
        let all_marked =
          All-update_rows IsConsistent token mark _ unique found
            (set_processing-IsConsistent _ sub waits c) all in
        rw (process-rows o token sub w found waits) (
          IsUnique-update_rows token finish marked (λ row. refl) marked_unique,
          All-update_rows IsConsistent token finish marked marked_unique found_marked
              (set_result-IsConsistent _ (mark sub) (final sub _) refl) all_marked,
        )
  ]
