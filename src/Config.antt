-- ===== src/Config.antt =====
-- internal/config/config.go: the settings and what makes them valid.
pub mod Load
pub mod Laws
use batasd.Common.{Bool, true, false, ◌&&◌, ◌||◌, not, List, ◌++◌, ◌≡◌, refl}
use batasd.Common.Int.{ℤ, pos, ltb_ℤ, leb_ℤ}
use batasd.Common.Str.{Str, lit, str_eq, is_empty}
use batasd.Common.Errors.{Error, other, Result, ok, err, ◌>>=◌, ◌>>◌, fail_if}
use batasd.Submission.Model.{Limits}

pub record HttpConfig : Type 0 where
  pub addr : Str
  pub max_body_bytes : ℤ

pub record DatabaseConfig : Type 0 where
  pub url : Str
  pub run_migrations : Bool

pub record AuthConfig : Type 0 where
  pub tokens : List Str

pub record SandboxConfig : Type 0 where
  pub driver : Str
  pub work_dir : Str
  pub docker_image : Str
  pub docker_binary : Str
  pub isolate_binary : Str
  pub isolate_box_id_start : ℤ
  pub isolate_box_id_count : ℤ
  pub isolate_control_group : Bool

pub record QueueConfig : Type 0 where
  pub workers : ℤ

-- A time.Duration is its nanoseconds.
pub record CallbackConfig : Type 0 where
  pub timeout : ℤ

pub record SubmissionConfig : Type 0 where
  pub default_limits : Limits
  pub max_limits : Limits
  pub wait_timeout : ℤ
  pub wait_poll_interval : ℤ

pub record Config : Type 0 where
  pub app_env : Str
  pub http : HttpConfig
  pub database : DatabaseConfig
  pub auth : AuthConfig
  pub sandbox : SandboxConfig
  pub queue : QueueConfig
  pub callback : CallbackConfig
  pub submissions : SubmissionConfig

-- `checkInt64` and `checkInt` of validateDefaultLimits.
unfoldable pub check_limit : Str → ℤ → ℤ → Result (Unit {0})
check_limit name value maximum = do
  fail_if (ltb_ℤ value (pos 0)) (other (name ++ lit " cannot be negative"))
  fail_if (ltb_ℤ maximum (pos 0)) (other (lit "MAX_" ++ (name ++ lit " cannot be negative")))
  fail_if (ltb_ℤ (pos 0) maximum && ltb_ℤ maximum value)
      (other (name ++ (lit " cannot exceed MAX_" ++ name)))
  ok tt

unfoldable pub validate_default_limits : Limits → Limits → Result (Unit {0})
validate_default_limits defaults max = do
  check_limit (lit "LIMIT_CPU_TIME_MS") defaults.cpu_time_ms max.cpu_time_ms
  check_limit (lit "LIMIT_CPU_EXTRA_MS") defaults.cpu_extra_ms max.cpu_extra_ms
  check_limit (lit "LIMIT_WALL_TIME_MS") defaults.wall_time_ms max.wall_time_ms
  check_limit (lit "LIMIT_MEMORY_KB") defaults.memory_kb max.memory_kb
  check_limit (lit "LIMIT_STACK_KB") defaults.stack_kb max.stack_kb
  check_limit (lit "LIMIT_MAX_PROCESSES") defaults.max_processes max.max_processes
  check_limit (lit "LIMIT_MAX_OUTPUT_KB") defaults.max_output_kb max.max_output_kb
  check_limit (lit "LIMIT_MAX_FILE_KB") defaults.max_file_kb max.max_file_kb
  check_limit (lit "LIMIT_RUNS") defaults.runs max.runs
  fail_if (defaults.network && not max.network)
      (other (lit "LIMIT_NETWORK cannot be true when MAX_LIMIT_NETWORK is false"))
  ok tt

unfoldable pub is_isolate : Config → Bool
unfolding str_eq
is_isolate c = str_eq c.sandbox.driver (lit "isolate")

unfoldable pub is_known_driver : Str → Bool
unfolding str_eq
is_known_driver driver =
    str_eq driver (lit "direct") || (str_eq driver (lit "docker") || str_eq driver (lit "isolate"))

-- Validate, given the `%q` of package fmt.
unfoldable pub validate : (Str → Str) → Config → Result (Unit {0})
validate quote c = do
  fail_if (is_empty c.app_env) (other (lit "APP_ENV cannot be empty"))
  fail_if (ltb_ℤ c.http.max_body_bytes (pos 1))
      (other (lit "HTTP_MAX_BODY_BYTES must be at least 1"))
  fail_if (not (is_known_driver c.sandbox.driver))
      (other (lit "unsupported SANDBOX_DRIVER " ++ quote c.sandbox.driver))
  fail_if (str_eq c.app_env (lit "production") && not (is_isolate c))
      (other (lit "production requires SANDBOX_DRIVER=isolate"))
  fail_if (is_isolate c && ltb_ℤ c.sandbox.isolate_box_id_start (pos 0))
      (other (lit "SANDBOX_ISOLATE_BOX_ID_START cannot be negative"))
  fail_if (is_isolate c && ltb_ℤ c.sandbox.isolate_box_id_count (pos 1))
      (other (lit "SANDBOX_ISOLATE_BOX_ID_COUNT must be at least 1"))
  fail_if (ltb_ℤ c.queue.workers (pos 1)) (other (lit "QUEUE_WORKERS must be at least 1"))
  fail_if (leb_ℤ c.callback.timeout (pos 0))
      (other (lit "CALLBACK_TIMEOUT_MS must be greater than 0"))
  fail_if (leb_ℤ c.submissions.wait_timeout (pos 0))
      (other (lit "SUBMISSION_WAIT_TIMEOUT_MS must be greater than 0"))
  fail_if (leb_ℤ c.submissions.wait_poll_interval (pos 0))
      (other (lit "SUBMISSION_WAIT_POLL_INTERVAL_MS must be greater than 0"))
  validate_default_limits c.submissions.default_limits c.submissions.max_limits
  fail_if (is_isolate c && ltb_ℤ c.sandbox.isolate_box_id_count c.queue.workers)
      (other (lit "SANDBOX_ISOLATE_BOX_ID_COUNT must be greater than or equal to QUEUE_WORKERS"))
  ok tt
