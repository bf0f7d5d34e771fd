-- ===== src/Submission/Limits.antt =====
-- The limits of a submission: validateLimitOverrides, mergeLanguageLimits and mergeLimits of
-- internal/submission/service.go, with LimitOverrides of internal/language/registry.go.
pub mod Laws
use batasd.Common.{Bool, true, false, ◌&&◌, not, Option, none, some, ◌++◌, if◌then◌else◌}
use batasd.Common.Int.{ℤ, pos, ltb_ℤ}
use batasd.Common.Str.{Str, lit, format_int}
use batasd.Common.Errors.{Error, validation, Result, ok, err, ◌>>=◌, ◌>>◌, fail_if}
use batasd.Submission.Model.{Limits}

-- The limits that a language version sets; 0 and a missing network leave the default.
pub record LimitOverrides : Type 0 where
  pub cpu_time_ms : ℤ
  pub cpu_extra_ms : ℤ
  pub wall_time_ms : ℤ
  pub memory_kb : ℤ
  pub stack_kb : ℤ
  pub max_processes : ℤ
  pub max_output_kb : ℤ
  pub max_file_kb : ℤ
  pub network : Option Bool
  pub runs : ℤ

-- `checkInt64` and `checkInt`, which are the same code at two types of 64 bits.
unfoldable pub check_int64 : Str → ℤ → ℤ → Result (Unit {0})
check_int64 field value maximum =
    if ltb_ℤ value (pos 0)
    then err (validation field (lit "cannot be negative"))
    else if ltb_ℤ (pos 0) value && (ltb_ℤ (pos 0) maximum && ltb_ℤ maximum value)
    then err (validation field (lit "cannot exceed " ++ format_int maximum))
    else ok tt

unfoldable pub validate_limit_overrides : Limits → Limits → Result (Unit {0})
validate_limit_overrides limits max = do
  check_int64 (lit "limits.cpu_time_ms") limits.cpu_time_ms max.cpu_time_ms
  check_int64 (lit "limits.cpu_extra_time_ms") limits.cpu_extra_ms max.cpu_extra_ms
  check_int64 (lit "limits.wall_time_ms") limits.wall_time_ms max.wall_time_ms
  check_int64 (lit "limits.memory_kb") limits.memory_kb max.memory_kb
  check_int64 (lit "limits.stack_kb") limits.stack_kb max.stack_kb
  check_int64 (lit "limits.max_processes") limits.max_processes max.max_processes
  check_int64 (lit "limits.max_output_kb") limits.max_output_kb max.max_output_kb
  check_int64 (lit "limits.max_file_kb") limits.max_file_kb max.max_file_kb
  check_int64 (lit "limits.runs") limits.runs max.runs
  fail_if (limits.network && not max.network)
      (validation (lit "limits.network") (lit "cannot be enabled"))
  ok tt

-- `if override > 0 { out = override }`.
unfoldable pub override_positive : ℤ → ℤ → ℤ
override_positive default override = if ltb_ℤ (pos 0) override then override else default

abbrev override_network : Bool → Option Bool → Bool
override_network default none = default
override_network default (some network) = network

abbrev merge_overrides : Limits → LimitOverrides → Limits
merge_overrides d o = record {
  cpu_time_ms = override_positive d.cpu_time_ms o.cpu_time_ms;
  cpu_extra_ms = override_positive d.cpu_extra_ms o.cpu_extra_ms;
  wall_time_ms = override_positive d.wall_time_ms o.wall_time_ms;
  memory_kb = override_positive d.memory_kb o.memory_kb;
  stack_kb = override_positive d.stack_kb o.stack_kb;
  max_processes = override_positive d.max_processes o.max_processes;
  max_output_kb = override_positive d.max_output_kb o.max_output_kb;
  max_file_kb = override_positive d.max_file_kb o.max_file_kb;
  network = override_network d.network o.network;
  runs = override_positive d.runs o.runs;
}

unfoldable pub merge_language_limits : Limits → Option LimitOverrides → Limits
unfolding override_positive
merge_language_limits defaults none = defaults
merge_language_limits defaults (some overrides) = merge_overrides defaults overrides

unfoldable pub merge_limits : Limits → Limits → Limits
unfolding override_positive
merge_limits d o = record {
  cpu_time_ms = override_positive d.cpu_time_ms o.cpu_time_ms;
  cpu_extra_ms = override_positive d.cpu_extra_ms o.cpu_extra_ms;
  wall_time_ms = override_positive d.wall_time_ms o.wall_time_ms;
  memory_kb = override_positive d.memory_kb o.memory_kb;
  stack_kb = override_positive d.stack_kb o.stack_kb;
  max_processes = override_positive d.max_processes o.max_processes;
  max_output_kb = override_positive d.max_output_kb o.max_output_kb;
  max_file_kb = override_positive d.max_file_kb o.max_file_kb;
  network = o.network;
  runs = override_positive d.runs o.runs;
}
