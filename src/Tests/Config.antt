-- ===== src/Tests/Config.antt =====
-- A configuration for production.
use batasd.Common.{[], ◌∷◌, none, ◌≡◌, refl, true}
use batasd.Common.Int.{pos}
use batasd.Common.Str.{Str, lit}
use batasd.Common.Errors.{Error, ok, err, fail_if}
use batasd.Submission.Limits.Laws.{AreAllowed}
use batasd.Submission.Service.Checks.{choose_limits}
use batasd.Config.{
  Config, check_limit, validate_default_limits, is_isolate, is_known_driver, validate,
}
use batasd.Config.Laws.{IsUsable, validate-IsUsable, choose_limits-AreAllowed}
use batasd.Tests.Fixtures.{limits}

abbrev pub config : Config
config = record {
  app_env = lit "production";
  http = record { addr = lit ":8080"; max_body_bytes = pos 1048576 };
  database = record { url = lit "postgres:"; run_migrations = true };
  auth = record { tokens = lit "secret" ∷ [] };
  sandbox = record {
    driver = lit "isolate";
    work_dir = lit "/w";
    docker_image = [];
    docker_binary = [];
    isolate_binary = lit "isolate";
    isolate_box_id_start = pos 0;
    isolate_box_id_count = pos 4;
    isolate_control_group = true;
  };
  queue = record { workers = pos 2 };
  callback = record { timeout = pos 5000000000 };
  submissions = record {
    default_limits = limits;
    max_limits = limits;
    wait_timeout = pos 30000000000;
    wait_poll_interval = pos 100000000;
  };
}

abbrev pub quote : Str → Str
quote s = s

pub valid : validate quote config ≡ ok tt
unfolding validate fail_if is_known_driver is_isolate validate_default_limits check_limit
valid = refl

too_few_boxes_test :
    validate quote (record config { queue = record { workers = pos 5 } })
    ≡ err (
        Error.other
          (lit "SANDBOX_ISOLATE_BOX_ID_COUNT must be greater than or equal to QUEUE_WORKERS"))
unfolding validate fail_if is_known_driver is_isolate validate_default_limits check_limit
too_few_boxes_test = refl

validate-IsUsable_example : IsUsable config
validate-IsUsable_example = validate-IsUsable quote config valid

chosen : choose_limits limits limits none ≡ ok limits
unfolding choose_limits
chosen = refl

choose_limits-AreAllowed_example : AreAllowed limits limits
choose_limits-AreAllowed_example = choose_limits-AreAllowed quote config none limits valid chosen
