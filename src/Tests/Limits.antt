-- ===== src/Tests/Limits.antt =====
-- Limits of requests on concrete values.
use batasd.Common.Str.{format_int}
use batasd.Submission.Limits.{check_int64}
use batasd.Common.{◌≡◌, ◌↔◌, refl, false}
use batasd.Common.Int.{pos}
use batasd.Common.Str.{lit}
use batasd.Common.Errors.{ok, err, Error, fail_if}
use batasd.Submission.Model.{Limits}
use batasd.Submission.Limits.{validate_limit_overrides}
use batasd.Submission.Limits.Laws.{AreAllowed, validate_limit_overrides_iff}
use batasd.Tests.Fixtures.{limits}

-- A request for half a second and nothing else.
abbrev half_second : Limits
half_second = record {
  cpu_time_ms = pos 500;
  cpu_extra_ms = pos 0;
  wall_time_ms = pos 0;
  memory_kb = pos 0;
  stack_kb = pos 0;
  max_processes = pos 0;
  max_output_kb = pos 0;
  max_file_kb = pos 0;
  network = false;
  runs = pos 0;
}

accepted : validate_limit_overrides half_second limits ≡ ok tt
unfolding validate_limit_overrides check_int64 fail_if
accepted = refl

too_long_test :
    validate_limit_overrides (record half_second { cpu_time_ms = pos 5000 }) limits
    ≡ err (Error.validation (lit "limits.cpu_time_ms") (lit "cannot exceed 1000"))
unfolding validate_limit_overrides check_int64 format_int
too_long_test = refl

validate_limit_overrides_iff_example :
    (validate_limit_overrides half_second limits ≡ ok tt) ↔ AreAllowed half_second limits
validate_limit_overrides_iff_example = validate_limit_overrides_iff half_second limits
