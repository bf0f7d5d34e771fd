-- ===== src/Worker/Delivery.antt =====
-- What Deliver of internal/callback/callback.go records.
use mathlib.Core.List.{append_assoc}
use batasd.Common.{
  ℕ, sym, some, ◌||◌, not, List, [], ◌∷◌, ◌++◌, Option, none, ◌≡◌, ◌⊎◌, ◌↔◌, inl, inr, refl,
  Bool-cases,
}
use batasd.Common.Int.{ℤ, pos, ltb_ℤ}
use batasd.Common.Str.{Str, lit}
use batasd.Common.Errors.{Error, error_text, Result, ok, err}
use batasd.Submission.Model.{Time, Submission, SubmissionResult, CallbackAttempt}
use batasd.Submission.Response.{to_result_response}
use batasd.Store.{Database}
use batasd.Worker.{
  Outside, attempt_of, create_callback_attempt, inserted, delivery_error, target, post_to, deliver,
}

attempt_of-agrees :
    (token : Str) (at : Time) (answer : Result ℤ)
    → ((attempt_of token at answer).0.error ≡ none) ↔ ((attempt_of token at answer).1 ≡ none)
unfolding attempt_of
attempt_of-agrees token at (err e) = ((λ h. absurd (cc)), λ h. absurd (cc))
attempt_of-agrees token at (ok code) =
    elim (Bool-cases (ltb_ℤ code (pos 200) || not (ltb_ℤ code (pos 300)))) [
      | inl bad ↦ rw (bad, attempt_of) ((λ h. absurd (cc)), λ h. absurd (cc))
      | inr good ↦ rw (good, attempt_of) ((λ h. refl), λ h. refl)
    ]

attempt_of-token :
    (token : Str) (at : Time) (answer : Result ℤ)
    → ((attempt_of token at answer).0.submission_token ≡ token)
      × ((attempt_of token at answer).0.attempt ≡ pos 1)
unfolding attempt_of
attempt_of-token token at (err e) = (refl, refl)
attempt_of-token token at (ok code) = (refl, refl)

module _ {X : Type 0} (o : Outside X) (sub : Submission) where
  -- The attempt that the database took, and the error that is returned, or none.
  pub record IsRecorded (attempts : List CallbackAttempt) (e : Option Error)
      (before : List CallbackAttempt) : Type 0 where
    pub attempt : CallbackAttempt
    pub world : X
    pub taken : (o.insert attempt world).0 ≡ none
    pub id : ℕ
    pub appended : attempts ≡ before ++ (record attempt { id = pos id } ∷ [])
    pub belongs : attempt.submission_token ≡ sub.token
    pub first : attempt.attempt ≡ pos 1
    pub agrees : (attempt.error ≡ none) ↔ (e ≡ none)

  -- The attempt that the database refused, and the error that is returned, which tells why.
  pub record IsUnrecorded (attempts : List CallbackAttempt) (e : Option Error)
      (before : List CallbackAttempt) : Type 0 where
    pub attempt : CallbackAttempt
    pub world : X
    pub refused : Error
    pub refusal : (o.insert attempt world).0 ≡ some refused
    pub kept : attempts ≡ before
    pub belongs : attempt.submission_token ≡ sub.token
    pub first : attempt.attempt ≡ pos 1
    pub returned : Error
    pub told : e ≡ some returned
    pub start : Str
    pub tells :
        error_text returned ≡ start ++ (lit "record callback attempt: " ++ error_text refused)

  delivery_error-tells :
      (failure : Option Error) (refused : Error)
      → (returned : Error) × (start : Str) × (delivery_error failure (some refused) ≡ some returned)
        × (error_text returned ≡ start ++ (lit "record callback attempt: " ++ error_text refused))
  unfolding delivery_error error_text
  delivery_error-tells none refused = (_, [], refl, refl)
  delivery_error-tells (some failure) refused = (
    _,
    error_text failure ++ lit "; ",
    refl,
    sym (
        append_assoc (error_text failure) (lit "; ")
          (lit "record callback attempt: " ++ error_text refused)),
  )

  -- The recording of an attempt, for the answer of the database.
  delivery_cases :
      (attempt : CallbackAttempt) (failure answer : Option Error) (db : Database) (x : X)
      → (o.insert attempt x).0 ≡ answer
      → attempt.submission_token ≡ sub.token
      → attempt.attempt ≡ pos 1
      → ((attempt.error ≡ none) ↔ (failure ≡ none))
      → IsRecorded (inserted attempt answer db).attempts (delivery_error failure answer) db.attempts
        ⊎ IsUnrecorded
            (inserted attempt answer db).attempts
            (delivery_error failure answer)
            db.attempts
  unfolding inserted delivery_error
  delivery_cases attempt failure none db x answered belongs first agrees = inl (record {
    attempt = attempt;
    world = x;
    taken = answered;
    id = db.next_id;
    appended = refl;
    belongs = belongs;
    first = first;
    agrees = agrees;
  })
  delivery_cases attempt failure (some e) db x answered belongs first agrees =
      let (returned, start, told, tells) = delivery_error-tells failure e in
      inr (record {
        attempt = attempt;
        world = x;
        refused = e;
        refusal = answered;
        kept = refl;
        belongs = belongs;
        first = first;
        returned = returned;
        told = told;
        start = start;
        tells = tells;
      })

  post_to_cases :
      (url : Str) (r : SubmissionResult) (w : Database × X)
      → ((url ≡ []) × (post_to o url sub r w ≡ (none, w)))
        ⊎ IsRecorded (post_to o url sub r w).1.0.attempts (post_to o url sub r w).0 w.0.attempts
        ⊎ IsUnrecorded (post_to o url sub r w).1.0.attempts (post_to o url sub r w).0 w.0.attempts
  unfolding post_to create_callback_attempt
  post_to_cases [] r (db, x) = inl (refl, refl)
  post_to_cases (a ∷ url) r (db, x) =
      let at = o.now x in
      let answer = (o.post (a ∷ url) (to_result_response o.format_time sub r) at.1) in
      let attempt = attempt_of sub.token at.0 answer.0 in
      let (belongs, first) = attempt_of-token sub.token at.0 answer.0 in
      inr (
        delivery_cases attempt.0 attempt.1 _ db answer.1 refl belongs first
          (attempt_of-agrees sub.token at.0 answer.0))

  -- Deliver does nothing for a submission whose callback URL is missing or blank. Otherwise it makes
  -- one attempt, with the token of the submission and the number 1. When the database takes it, it is
  -- added to those recorded, with an error exactly when Deliver returns one; when the database
  -- refuses it, those recorded stay as they are, and Deliver returns an error, whose text ends with
  -- that refusal.
  pub deliver_cases :
      (r : SubmissionResult) (w : Database × X)
      → ((target sub.callback_url ≡ []) × (deliver o sub r w ≡ (none, w)))
        ⊎ IsRecorded (deliver o sub r w).1.0.attempts (deliver o sub r w).0 w.0.attempts
        ⊎ IsUnrecorded (deliver o sub r w).1.0.attempts (deliver o sub r w).0 w.0.attempts
  unfolding deliver
  deliver_cases r w = post_to_cases (target sub.callback_url) r w
