-- ===== src/Tests/Service.antt =====
-- The submission service on the tables and a queue of tokens.
use batasd.Common.Str.{str_eq}
use batasd.Common.Effects.{continue_with}
use batasd.Common.{◌≤◌, ℕ, List, [], ◌∷◌, Option, none, some, ◌≡◌, refl, arith}
use batasd.Common.Int.{pos}
use batasd.Common.Str.{Str, lit}
use batasd.Common.Errors.{Error, Result, ok, err}
use batasd.Submission.Model.{Submission, CreateRequest, ListQuery}
use batasd.Submission.Backend.{Repository, Backend}
use batasd.Submission.Service.{create, list, poll}
use batasd.Submission.Service.Laws.{Created, create-Created, IsPageQuery, list-IsPageQuery}
use batasd.Submission.Service.Waiting.{poll-IsAnswer, IsAnswer, AllGoOn, polled}
use batasd.Store.{create_row, find_row, mark_processing, store_result, recover_unfinished}
use batasd.Tests.Fixtures.{limits, submission}
use batasd.Tests.Languages.{registry}

-- The rows, and the tokens that were enqueued.
abbrev pub World : Type 0
World = List Submission × List Str

set_rows : Result (List Submission) → World → Result (Unit {0}) × World
set_rows (ok rows) w = (ok tt, (rows, w.1))
set_rows (err e) w = (err e, w)

abbrev pub repository : Repository World
unfolding set_rows create_row find_row mark_processing store_result recover_unfinished
repository = record {
  create = λ sub w. set_rows (create_row sub w.0) w;
  find_by_token = λ token w. (find_row token w.0, w);
  list = λ query w. (ok (record { submissions = w.0; next_before = none; limit = query.limit }), w);
  mark_processing = λ token at w. set_rows (mark_processing token at w.0) w;
  store_result = λ token r w. set_rows (store_result token r w.0) w;
  recover_unfinished =
      λ at w. (ok (recover_unfinished at w.0).0, ((recover_unfinished at w.0).1, w.1));
  create_callback_attempt = λ attempt w. (ok tt, w);
  list_callback_attempts = λ token w. (ok [], w);
}

abbrev pub backend : Backend World
backend = record {
  repo = repository;
  enqueue = λ token w. (ok tt, (w.0, token ∷ w.1));
  now = λ w. (1, w);
  random16 = λ w. (ok (0 ∷ 255 ∷ 7 ∷ 31 ∷ 64 ∷ 1 ∷ []), w);
  parse_url = λ s. none;
  tick = λ w. (some Error.canceled, w);
}

abbrev pub request : CreateRequest
request = record {
  source = lit "int main";
  language = lit "c";
  language_version = [];
  input = [];
  expected_output = none;
  arguments = none;
  compiler_options = none;
  limits = none;
  additional_files = none;
  callback = none;
}

abbrev created : Submission
created = record submission { token = lit "sub_ad7qoh2aae"; expected_output = none; arguments = [] }

creates :
    create backend registry limits limits request ([], [])
    ≡ (ok created, (created ∷ [], created.token ∷ []))
unfolding create continue_with repository
creates = refl

create-Created_example :
    Created backend registry limits limits request created (created ∷ [], created.token ∷ [])
create-Created_example =
    create-Created backend registry limits limits request ([], []) _ created creates

abbrev query : ListQuery
query = record { limit = pos 500; before_token = []; status_code = lit " queued"; language = [] }

lists : list backend registry query (submission ∷ [], []) ≡ (
  ok (record { submissions = submission ∷ []; next_before = none; limit = pos 100 }),
  (submission ∷ [], []),
)
unfolding list continue_with str_eq repository
lists = refl

list-IsPageQuery_example :
    (q : ListQuery) × (v : World) × IsPageQuery registry q
    × (backend.repo.list q v ≡ (
      ok (record { submissions = submission ∷ []; next_before = none; limit = pos 100 }),
      (submission ∷ [], []),
    ))
list-IsPageQuery_example = list-IsPageQuery backend registry query (submission ∷ [], []) _ _ lists

abbrev start : World
start = (submission ∷ [], [])

poll-IsAnswer_example :
    (j : ℕ) × (sub : Option Submission) × (e : Option Error) × (j ≤ 0)
    × AllGoOn backend (lit "sub_a") j start
    × ((poll backend 1 (lit "sub_a") start).0 ≡ some (sub, e))
    × IsAnswer backend (lit "sub_a") (polled backend (lit "sub_a") j start) sub e
poll-IsAnswer_example =
    poll-IsAnswer backend (lit "sub_a") 0 1 start (omega arith) (Error.canceled, refl)
