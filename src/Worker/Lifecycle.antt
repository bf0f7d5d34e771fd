-- ===== src/Worker/Lifecycle.antt =====
-- What internal/worker/worker.go does to the rows of a token.
pub mod Consistency
use batasd.Common.{
  Bool, true, false, List, [], ◌∷◌, Option, none, some, if◌then◌else◌, ◌≡◌, ◌≢◌, ◌⊎◌, inl, inr,
  refl, sym, ap, ◌∙◌, subst, arith, Bool-cases,
}
use batasd.Common.Str.{Str, str_eq, str_eq_iff}
use batasd.Common.Errors.{Error, Result, ok, err, ok_value}
use batasd.Submission.Model.{Time, Submission, SubmissionResult, CallbackAttempt}
use batasd.Store.{
  Database, find_row, has_token, update, update_rows, mark_processing, store_result, set_processing,
  set_result,
}
use batasd.Store.Rows.{
  find_row-update_rows_other, has_token-update_rows, find_row-has_token, find_row-update_rows,
}
use batasd.Submission.Response.{to_result_response}
use batasd.Worker.{
  Outside, target, post_to, deliver, deliver_result, on_rows, store_and_deliver, run_engine, start,
  fetched, process, attempt_of, create_callback_attempt, inserted,
}
use batasd.Status.{queued}

update-ok :
    (token : Str) (set : Submission → Submission) (rows : List Submission)
    → has_token token rows ≡ true
    → update token set rows ≡ ok (update_rows token set rows)
unfolding update
update-ok token set rows h = rw (update, h) refl

Result-cases :
    (r : Result Submission) → ((e : Error) × (r ≡ err e)) ⊎ ((sub : Submission) × (r ≡ ok sub))
Result-cases (ok sub) = inr (sub, refl)
Result-cases (err e) = inl (e, refl)

module _ {X : Type 0} (o : Outside X) where
  inserted-submissions :
      (attempt : CallbackAttempt) (refused : Option Error) (db : Database)
      → (inserted attempt refused db).submissions ≡ db.submissions
  unfolding inserted
  inserted-submissions attempt none db = refl
  inserted-submissions attempt (some e) db = refl

  -- A callback leaves the rows of the submissions.
  post_to-submissions :
      (url : Str) (sub : Submission) (r : SubmissionResult) (w : Database × X)
      → (post_to o url sub r w).1.0.submissions ≡ w.0.submissions
  unfolding post_to create_callback_attempt
  post_to-submissions [] sub r (db, x) = refl
  post_to-submissions (a ∷ url) sub r (db, x) =
      let at = o.now x in
      let answer = (o.post (a ∷ url) (to_result_response o.format_time sub r) at.1).0 in
      inserted-submissions (attempt_of sub.token at.0 answer).0 _ db

  -- The row of a queued submission behind its processing: started, then finished with the result.
  abbrev pub processed : Submission → X → Submission
  processed sub x = set_result (o.engine sub (o.now x).1).0 (set_processing (o.now x).0 sub)

  -- The rows behind the processing of a queued submission.
  abbrev pub rows_after : Str → Submission → X → List Submission → List Submission
  rows_after token sub x rows =
      update_rows token (set_result (o.engine sub (o.now x).1).0)
        (update_rows token (set_processing (o.now x).0) rows)

  on_rows-ok :
      (r : Result (List Submission)) (rows : List Submission) (next : Database × X → Database × X)
      (db : Database) (x : X)
      → r ≡ ok rows
      → on_rows o r next (db, x) ≡ next (record db { submissions = rows }, x)
  unfolding on_rows
  on_rows-ok r rows next db x e = rw e refl

  store_and_deliver-submissions :
      (token : Str) (sub : Submission) (r : SubmissionResult) (db : Database) (x : X)
      → has_token token db.submissions ≡ true
      → (store_and_deliver o token sub r (db, x)).0.submissions
        ≡ update_rows token (set_result r) db.submissions
  unfolding store_and_deliver store_result deliver_result deliver
  store_and_deliver-submissions token sub r db x h =
      ap (λ (w : Database × X). w.0.submissions)
        (on_rows-ok _ _ (deliver_result o sub r) db x (update-ok token (set_result r) _ h))
      ∙ post_to-submissions (target sub.callback_url) sub r _

  start-submissions :
      (token : Str) (sub : Submission) (db : Database) (x : X)
      → has_token token db.submissions ≡ true
      → (start o token sub (db, x)).0.submissions ≡ rows_after token sub x db.submissions
  unfolding start mark_processing run_engine
  start-submissions token sub db x h =
      let set = set_processing (o.now x).0 in
      ap (λ (w : Database × X). w.0.submissions)
        (on_rows-ok _ _ (run_engine o token sub) db (o.now x).1 (update-ok token set _ h))
      ∙ store_and_deliver-submissions token sub _ _ _
          (has_token-update_rows token token set db.submissions (λ row. refl) ∙ h)

  pub process-rows :
      (token : Str) (sub : Submission) (w : Database × X)
      → find_row token w.0.submissions ≡ ok sub
      → sub.status_code ≡ queued
      → (process o token w).0.submissions ≡ rows_after token sub w.1 w.0.submissions
  unfolding process fetched
  process-rows token sub (db, x) found waits =
      let same : str_eq sub.status_code queued ≡ true =
        (str_eq_iff sub.status_code queued).1 waits in
      rw (found, process, fetched, same)
        (start-submissions token sub db x (find_row-has_token token db.submissions found))

  -- Processing a token leaves everything as it is when there is no submission with that token or it
  -- is not queued. Otherwise the submission that is found behind it is the one found before, started
  -- at the time that was read and finished with what the engine made of the submission before it was
  -- started.
  pub process_cases :
      (token : Str) (w : Database × X)
      → ((process o token w ≡ w)
          × ((sub : Submission)
              → find_row token w.0.submissions ≡ ok sub
              → sub.status_code ≢ queued))
        ⊎ ((sub : Submission) × (find_row token w.0.submissions ≡ ok sub)
            × (sub.status_code ≡ queued)
            × (find_row token (process o token w).0.submissions ≡ ok (processed sub w.1)))
  unfolding process fetched
  process_cases token w = elim (Result-cases (find_row token w.0.submissions)) [
    | inl (e, failed) ↦ inl (rw (failed, process, fetched) refl, λ sub found waits. absurd (cc))
    | inr (sub, found) ↦ elim (Bool-cases (str_eq sub.status_code queued)) [
      | inr busy ↦ inl (
        rw (found, process, fetched, busy) refl,
        λ sub' found' waits.
            let e : ok sub' ≡ ok sub = sym found' ∙ found in
            let hit : str_eq sub.status_code queued ≡ true =
              (str_eq_iff sub.status_code queued).1
                (subst (λ (s : Submission). s.status_code ≡ queued) (ok_value e) waits) in
            absurd (cc),
      )
      | inl same ↦
          let waits = (str_eq_iff sub.status_code queued).0 same in
          inr (
            sub,
            found,
            waits,
            ap (find_row token) (process-rows token sub w found waits)
                ∙ find_row-update_rows token _ _ (λ row. refl)
                    (find_row-update_rows token _ w.0.submissions (λ row. refl) found),
          )
    ]
  ]

  -- Processing one token changes nothing that the look-up of another finds.
  pub process_other :
      (t token : Str) (w : Database × X)
      → t ≢ token
      → find_row t (process o token w).0.submissions ≡ find_row t w.0.submissions
  unfolding set_result set_processing
  process_other t token w other = elim (process_cases token w) [
    | inl (same, _) ↦ ap (λ (v : Database × X). find_row t v.0.submissions) same
    | inr (sub, found, waits, _) ↦
        let mark = set_processing (o.now w.1).0 in
        let finish = set_result (o.engine sub (o.now w.1).1).0 in
        ap (find_row t) (process-rows token sub w found waits)
        ∙ find_row-update_rows_other t token finish (update_rows token mark w.0.submissions)
            (λ row. refl) other
        ∙ find_row-update_rows_other t token mark w.0.submissions (λ row. refl) other
  ]
