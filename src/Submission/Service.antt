-- ===== src/Submission/Service.antt =====
-- The operations of internal/submission/service.go over the repository, the queue and the clock.
pub mod Token
pub mod Checks
pub mod Laws
pub mod Waiting
use batasd.Common.{ℕ, zero, suc, List, [], ◌∷◌, ◌++◌, Option, none, some, if◌then◌else◌}
use batasd.Common.Str.{Str, lit}
use batasd.Common.Errors.{Error, wrap, Result, ok, err}
use batasd.Common.Effects.{Io, continue_with, return, lift, ◌>>=◌, ◌>>◌}
use batasd.Submission.Model.{
  Time, Limits, CreateRequest, ListQuery, ListResult, Submission, CallbackAttempt,
}
use batasd.Submission.Limits.{merge_language_limits}
use batasd.Submission.Backend.{Repository, Backend}
use batasd.Submission.Service.Token.{token_of}
use batasd.Submission.Service.Checks.{
  check_request, choose_limits, new_submission, check_query, check_token,
}
use batasd.Language.{Registry, Runtime}
use batasd.Status.{terminal}

-- newToken, with the error that Create wraps it in.
made_token : Result (List ℕ) → Result Str
unfolding token_of
made_token (ok bytes) = ok (token_of bytes)
made_token (err e) = err (wrap (lit "generate token: ") e)

module _ {W : Type 0} (b : Backend W) where
  now : Io W Time
  now w = (ok (b.now w).0, (b.now w).1)

  new_token : Io W Str
  unfolding made_token
  new_token w = (made_token (b.random16 w).0, (b.random16 w).1)

  unfoldable pub create : Registry → Limits → Limits → CreateRequest → Io W Submission
  unfolding now new_token check_request choose_limits merge_language_limits new_submission
  create languages defaults max req = lift (check_request b.parse_url languages req) >>= λ lang.
      now >>= λ at.
      lift (choose_limits (merge_language_limits defaults lang.default_limits) max req.limits)
      >>= λ limits. new_token >>= λ token.
          b.repo.create (new_submission req lang limits token at)
          >> (b.enqueue token >> return (new_submission req lang limits token at))

  unfoldable pub find : Str → Io W Submission
  unfolding check_token
  find token = lift (check_token token) >>= λ t. b.repo.find_by_token t

  -- The rounds of WaitForCompletion that are left: what it returns, or nothing when the fuel is out.
  unfoldable pub poll : ℕ → Str → W → Option (Option Submission × Option Error) × W
  unfolding terminal
  poll zero token w = (none, w)
  poll (suc fuel) token w = elim (b.repo.find_by_token token w).0 [
    | err e ↦ (some (none, some e), (b.repo.find_by_token token w).1)
    | ok sub ↦
        if terminal sub.status_code
        then (some (some sub, none), (b.repo.find_by_token token w).1)
        else (elim (b.tick (b.repo.find_by_token token w).1).0 [
          | some e ↦ (some (some sub, some e), (b.tick (b.repo.find_by_token token w).1).1)
          | none ↦ poll fuel token (b.tick (b.repo.find_by_token token w).1).1
        ])
  ]

  unfoldable pub wait_for_completion : ℕ → Str → W → Option (Option Submission × Option Error) × W
  unfolding check_token poll
  wait_for_completion fuel token w = elim (check_token token) [
    | err e ↦ (some (none, some e), w)
    | ok t ↦ poll fuel t w
  ]

  -- `if query.BeforeToken != "" { ... }`.
  look_up_cursor : Str → Io W (Unit {0})
  look_up_cursor [] = return tt
  look_up_cursor (a ∷ token) = b.repo.find_by_token (a ∷ token) >>= λ _. return tt

  unfoldable pub list : Registry → ListQuery → Io W ListResult
  unfolding check_query look_up_cursor
  list languages query =
      lift (check_query languages query) >>= λ q. look_up_cursor q.before_token >> b.repo.list q

  unfoldable pub list_callback_attempts : Str → Io W (List CallbackAttempt)
  unfolding check_token
  list_callback_attempts token = lift (check_token token) >>= λ t.
      b.repo.find_by_token t >>= λ _. b.repo.list_callback_attempts t
