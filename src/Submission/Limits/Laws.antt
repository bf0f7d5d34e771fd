-- ===== src/Submission/Limits/Laws.antt =====
-- The limits that internal/submission/service.go accepts and merges.
use batasd.Common.{true, false, ◌≡◌, ◌⊎◌, ◌↔◌, arith}
use batasd.Common.Int.{ℤ, pos, negsuc, ◌≤ℤ◌}
use batasd.Common.Str.{Str, lit}
use batasd.Common.Errors.{ok, fail_if, >>-eq-ok}
use batasd.Submission.Model.{Limits}
use batasd.Submission.Limits.{
  check_int64, validate_limit_overrides, override_positive, merge_limits,
}

-- A value that a request may ask for: 0 or more, and at most the maximum unless that is not positive.
abbrev pub IsAllowed : ℤ → ℤ → Type 0
IsAllowed value maximum = (pos 0 ≤ℤ value) × ((value ≤ℤ maximum) ⊎ (maximum ≤ℤ pos 0))

pub record AreAllowed (limits max : Limits) : Type 0 where
  pub cpu_time : IsAllowed limits.cpu_time_ms max.cpu_time_ms
  pub cpu_extra : IsAllowed limits.cpu_extra_ms max.cpu_extra_ms
  pub wall_time : IsAllowed limits.wall_time_ms max.wall_time_ms
  pub memory : IsAllowed limits.memory_kb max.memory_kb
  pub stack : IsAllowed limits.stack_kb max.stack_kb
  pub processes : IsAllowed limits.max_processes max.max_processes
  pub output : IsAllowed limits.max_output_kb max.max_output_kb
  pub file : IsAllowed limits.max_file_kb max.max_file_kb
  pub runs : IsAllowed limits.runs max.runs
  pub network : (limits.network ≡ false) ⊎ (max.network ≡ true)

check_int64_iff :
    (field : Str) (value maximum : ℤ)
    → (check_int64 field value maximum ≡ ok tt) ↔ IsAllowed value maximum
unfolding check_int64
check_int64_iff field (pos n) (pos m) = ground arith
check_int64_iff field (pos n) (negsuc m) = ground arith
check_int64_iff field (negsuc n) (pos m) = ground arith
check_int64_iff field (negsuc n) (negsuc m) = ground arith

-- `validateLimitOverrides` accepts exactly the limits whose every field is allowed.
pub validate_limit_overrides_iff :
    (limits max : Limits) → (validate_limit_overrides limits max ≡ ok tt) ↔ AreAllowed limits max
unfolding validate_limit_overrides fail_if
validate_limit_overrides_iff limits max = (accepted, passes)
  where
    accepted : validate_limit_overrides limits max ≡ ok tt → AreAllowed limits max
    accepted e =
        let (c1, e1) = >>-eq-ok _ _ e in
        let (c2, e2) = >>-eq-ok _ _ e1 in
        let (c3, e3) = >>-eq-ok _ _ e2 in
        let (c4, e4) = >>-eq-ok _ _ e3 in
        let (c5, e5) = >>-eq-ok _ _ e4 in
        let (c6, e6) = >>-eq-ok _ _ e5 in
        let (c7, e7) = >>-eq-ok _ _ e6 in
        let (c8, e8) = >>-eq-ok _ _ e7 in
        let (c9, e9) = >>-eq-ok _ _ e8 in
        record {
          cpu_time = (check_int64_iff _ _ _).0 c1;
          cpu_extra = (check_int64_iff _ _ _).0 c2;
          wall_time = (check_int64_iff _ _ _).0 c3;
          memory = (check_int64_iff _ _ _).0 c4;
          stack = (check_int64_iff _ _ _).0 c5;
          processes = (check_int64_iff _ _ _).0 c6;
          output = (check_int64_iff _ _ _).0 c7;
          file = (check_int64_iff _ _ _).0 c8;
          runs = (check_int64_iff _ _ _).0 c9;
          network = ground (arith, e9);
        }

    passes : AreAllowed limits max → validate_limit_overrides limits max ≡ ok tt
    passes a =
        rw
          (
            validate_limit_overrides,
            (check_int64_iff (lit "limits.cpu_time_ms") _ _).1 a.cpu_time,
            (check_int64_iff (lit "limits.cpu_extra_time_ms") _ _).1 a.cpu_extra,
            (check_int64_iff (lit "limits.wall_time_ms") _ _).1 a.wall_time,
            (check_int64_iff (lit "limits.memory_kb") _ _).1 a.memory,
            (check_int64_iff (lit "limits.stack_kb") _ _).1 a.stack,
            (check_int64_iff (lit "limits.max_processes") _ _).1 a.processes,
            (check_int64_iff (lit "limits.max_output_kb") _ _).1 a.output,
            (check_int64_iff (lit "limits.max_file_kb") _ _).1 a.file,
            (check_int64_iff (lit "limits.runs") _ _).1 a.runs,
          )
          (ground (arith, a.network))

override_positive-IsAllowed :
    (default override maximum : ℤ)
    → IsAllowed default maximum
    → IsAllowed override maximum
    → IsAllowed (override_positive default override) maximum
unfolding override_positive
override_positive-IsAllowed default override maximum d o = ground arith

-- Limits merged from allowed defaults and an accepted request stay allowed, field by field.
pub merge_limits-AreAllowed :
    (defaults overrides max : Limits)
    → AreAllowed defaults max
    → validate_limit_overrides overrides max ≡ ok tt
    → AreAllowed (merge_limits defaults overrides) max
unfolding merge_limits
merge_limits-AreAllowed defaults overrides max d accepted =
    let o = (validate_limit_overrides_iff overrides max).0 accepted in
    record {
      cpu_time = override_positive-IsAllowed _ _ _ d.cpu_time o.cpu_time;
      cpu_extra = override_positive-IsAllowed _ _ _ d.cpu_extra o.cpu_extra;
      wall_time = override_positive-IsAllowed _ _ _ d.wall_time o.wall_time;
      memory = override_positive-IsAllowed _ _ _ d.memory o.memory;
      stack = override_positive-IsAllowed _ _ _ d.stack o.stack;
      processes = override_positive-IsAllowed _ _ _ d.processes o.processes;
      output = override_positive-IsAllowed _ _ _ d.output o.output;
      file = override_positive-IsAllowed _ _ _ d.file o.file;
      runs = override_positive-IsAllowed _ _ _ d.runs o.runs;
      network = o.network;
    }
