-- ===== src/Submission/Backend.antt =====
-- What the submission service stands on: the interfaces Repository and Queue of
-- internal/submission/model.go, the clock, the random bytes and url.Parse.
use batasd.Common.{ℕ, List, Option}
use batasd.Common.Str.{Str}
use batasd.Common.Errors.{Error}
use batasd.Common.Effects.{Io}
use batasd.Submission.Model.{
  Time, Submission, SubmissionResult, ListQuery, ListResult, CallbackAttempt,
}

pub record Repository (W : Type 0) : Type 0 where
  pub create : Submission → Io W (Unit {0})
  pub find_by_token : Str → Io W Submission
  pub list : ListQuery → Io W ListResult
  pub mark_processing : Str → Time → Io W (Unit {0})
  pub store_result : Str → SubmissionResult → Io W (Unit {0})
  pub recover_unfinished : Time → Io W (List Str)
  pub create_callback_attempt : CallbackAttempt → Io W (Unit {0})
  pub list_callback_attempts : Str → Io W (List CallbackAttempt)

-- The part of a url.URL that is read.
pub record Address : Type 0 where
  pub scheme : Str
  pub host : Str

-- `tick` is the select of a ticker against the context: `some e` when the context ended.
pub record Backend (W : Type 0) : Type 0 where
  pub repo : Repository W
  pub enqueue : Str → Io W (Unit {0})
  pub now : W → Time × W
  pub random16 : Io W (List ℕ)
  pub parse_url : Str → Option Address
  pub tick : W → Option Error × W
