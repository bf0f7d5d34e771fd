-- ===== src/Api/Router.antt =====
-- internal/httpapi/router.go: the routes, what each answers, and which of them ask for a token.
pub mod Guarded
use batasd.Common.{ℕ, Bool, true, false, List, [], ◌∷◌, Option, none, some}
use batasd.Common.Int.{ℤ, quot_ℤ}
use batasd.Common.Str.{Str, lit}
use batasd.Submission.Model.{Time}
use batasd.Status.{all_statuses}
use batasd.Language.{Registry, Language, list_languages, get}
use batasd.Config.{Config}
use batasd.Queue.{Queue}
use batasd.Worker.Monitor.{Monitor, snapshot}
use batasd.Api.Answers.{
  Answer, Body, PublicConfig, healthy, authenticated, languages, language, statuses, public_config,
  system, workers, write_json, write_error,
}
use batasd.Api.Auth.{auth_middleware}
use batasd.Api.Submissions.{
  Request, SubmissionHandler, list_submissions, create_submission, callback_attempts,
  get_submission,
}

-- The routes that chi tells apart by method and path, with the parameters of their paths.
pub data Route : Type 0 where
  healthz : Route
  post_authenticate : Route
  get_languages : Route
  get_language : (slug : Str) → Route
  get_statuses : Route
  get_config : Route
  get_system : Route
  get_workers : Route
  get_submissions : Route
  post_submissions : Route
  get_submission_callbacks : Route
  get_one_submission : Route

-- Duration.Milliseconds.
abbrev in_milliseconds : ℤ → ℤ
in_milliseconds d = quot_ℤ d 1000000

unfoldable pub public_config_of : Config → PublicConfig
unfolding quot_ℤ
public_config_of c = record {
  environment = c.app_env;
  http_max_body_bytes = c.http.max_body_bytes;
  sandbox_driver = c.sandbox.driver;
  sandbox_docker_image = c.sandbox.docker_image;
  sandbox_isolate_cgroup = c.sandbox.isolate_control_group;
  default_limits = c.submissions.default_limits;
  max_limits = c.submissions.max_limits;
  wait_timeout_ms = in_milliseconds c.submissions.wait_timeout;
  wait_poll_interval_ms = in_milliseconds c.submissions.wait_poll_interval;
  callback_timeout_ms = in_milliseconds c.callback.timeout;
}

-- What the handlers read: the queue, the workers and the time are parts of the world.
pub record Dependencies (W : Type 0) : Type 0 where
  pub config : Config
  pub submissions : SubmissionHandler W
  pub registry : Registry
  pub queue : W → Queue
  pub monitor : W → Monitor
  pub now : W → Time × W

abbrev answered : {W : Type 0} → Answer × W → Option Answer × W
answered (a, w) = (some a, w)

module _ {W : Type 0} (deps : Dependencies W) where
  language_answer : Option Language → Answer
  unfolding write_json write_error
  language_answer (some lang) = write_json 200 (language lang)
  language_answer none = write_error 404 (lit "not_found") (lit "language not found")

  workers_answer : Time → W → Answer
  unfolding write_json snapshot
  workers_answer now w = write_json 200 (
      workers deps.config.queue.workers (deps.queue w).pending (deps.queue w).active
        (snapshot now (deps.monitor w)))

  -- The handlers under /v1. The fuel is that of a wait.
  unfoldable pub handle : ℕ → Route → Request → W → Option Answer × W
  unfolding write_json language_answer workers_answer public_config_of all_statuses list_languages
      get list_submissions create_submission callback_attempts get_submission
  handle fuel healthz r w = (some (write_json 200 healthy), w)
  handle fuel post_authenticate r w = (some (write_json 200 authenticated), w)
  handle fuel get_languages r w =
      (some (write_json 200 (languages (list_languages deps.registry))), w)
  handle fuel (get_language slug) r w = (some (language_answer (get deps.registry slug)), w)
  handle fuel get_statuses r w = (some (write_json 200 (statuses all_statuses)), w)
  handle fuel get_config r w =
      (some (write_json 200 (public_config (public_config_of deps.config))), w)
  handle fuel get_system r w =
      (some (write_json 200 (system deps.config.app_env deps.config.sandbox.driver)), w)
  handle fuel get_workers r w = let (now, w') = deps.now w in (some (workers_answer now w'), w')
  handle fuel get_submissions r w = answered (list_submissions deps.submissions r w)
  handle fuel post_submissions r w = create_submission deps.submissions fuel r w
  handle fuel get_submission_callbacks r w = answered (callback_attempts deps.submissions r w)
  handle fuel get_one_submission r w = answered (get_submission deps.submissions r w)

  -- /healthz stands outside the group that asks for a token.
  unfoldable pub serve : ℕ → Route → Str → Request → W → Option Answer × W
  unfolding handle auth_middleware
  serve fuel healthz header r w = handle fuel healthz r w
  serve fuel route header r w =
      auth_middleware deps.config.auth.tokens header (handle fuel route r) w
