-- ===== src/Tests/Api.antt =====
-- Requests to the API, on the tables and the queue of the service's tests.
use batasd.Api.Fields.{or_all}
use batasd.Api.Fields.{valid_response_field}
use batasd.Api.Fields.{add_field}
use batasd.Api.Fields.{add_fields}
use batasd.Common.{true, false, List, [], ◌∷◌, ◌++◌, none, some, All, ◌≡◌, ◌≢◌, refl}
use batasd.Common.Int.{pos}
use batasd.Common.Str.{Str, lit, str_eq}
use batasd.Common.Errors.{ok}
use batasd.Submission.Response.{Response, Value, find_key, select_response_fields, to_response}
use batasd.Submission.Response.Json.{json_object, IsShownOrEmpty}
use batasd.Submission.Response.Selected.{select_response_fields-chosen}
use batasd.Queue.{new_queue}
use batasd.Api.Answers.{Answer}
use batasd.Api.Fields.{is_seen, parse_submission_fields}
use batasd.Api.Auth.{bearer_token, is_token}
use batasd.Api.Auth.Passed.{IsGraphic}
use batasd.Api.Submissions.{Request, decoded, SubmissionHandler, create_submission}
use batasd.Api.Submissions.Outcome.{Outcome}
use batasd.Api.Submissions.Created.{create_submission-Outcome}
use batasd.Api.Router.{Dependencies, get_config, handle, serve}
use batasd.Api.Router.Guarded.{serve-Guarded}
use batasd.Tests.Fixtures.{limits, submission}
use batasd.Tests.Languages.{registry}
use batasd.Tests.Service.{World, backend, request}
use batasd.Tests.Config.{config, quote}

abbrev handler : SubmissionHandler World
handler = record {
  backend = backend;
  waiting = λ timeout interval. backend;
  languages = registry;
  default_limits = limits;
  max_limits = limits;
  wait_timeout = pos 0;
  wait_poll_interval = pos 0;
  quote = quote;
  format_time = λ at. lit "2026-01-01T00:00:00Z";
}

abbrev post : Request
post = record { query = λ key. []; token = []; body = decoded request }

create_submission-Outcome_example :
    Outcome handler 1 post ([], []) (create_submission handler 1 post ([], []))
create_submission-Outcome_example = create_submission-Outcome handler 1 post ([], [])

abbrev response : Response
unfolding to_response
response = to_response (λ at. lit "now") submission

abbrev chosen : List Str
chosen = lit "token" ∷ lit "stdout" ∷ []

selects : parse_submission_fields quote (lit "token, stdout") ≡ ok (some chosen)
unfolding parse_submission_fields str_eq add_fields add_field valid_response_field or_all
selects = refl

select_response_fields-chosen_example :
    (is_seen (lit "stdout") chosen ≡ true
      → (value : Value) × (find_key (lit "stdout") (select_response_fields response chosen)
          ≡ some value)
        × IsShownOrEmpty (lit "stdout") (json_object response) value)
    × (is_seen (lit "stdout") chosen ≡ false
        → find_key (lit "stdout") (select_response_fields response chosen) ≡ none)
select_response_fields-chosen_example =
    select_response_fields-chosen quote (lit "token, stdout") chosen response (lit "stdout") selects

abbrev dependencies : Dependencies World
dependencies = record {
  config = config;
  submissions = handler;
  registry = registry;
  queue = λ w. new_queue;
  monitor = λ w. [];
  now = λ w. (1, w);
}

serve-Guarded_example :
    ((header : Str)
      → ((token : Str)
          → bearer_token header ≡ some token
          → is_token token (lit "secret" ∷ []) ≡ false)
      → (answer : Answer) × (serve dependencies 1 get_config header post ([], [])
          ≡ (some answer, ([], [])))
        × (answer.status ≡ 401))
    × ((token : Str)
        → token ≢ []
        → All IsGraphic token
        → is_token token (lit "secret" ∷ []) ≡ true
        → serve dependencies 1 get_config (lit "Bearer " ++ token) post ([], [])
          ≡ handle dependencies 1 get_config post ([], []))
serve-Guarded_example =
    serve-Guarded dependencies 1 get_config post ([], []) (lit "secret") [] refl refl
