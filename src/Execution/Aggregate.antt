-- ===== src/Execution/Aggregate.antt =====
-- runCount and runAggregate of internal/execution/engine.go: repeated runs as one result.
pub mod Laws
use batasd.Common.{
  ℕ, zero, suc, ◌+◌, ◌*◌, ◌/◌, ◌^◌, ◌≤◌, ◌<◌, ◌≡◌, ◌⊎◌, inl, inr, refl, sym, ◌∙◌, arith, Bool, true,
  false, List, [], ◌∷◌, Option, none, some, length, All, if◌then◌else◌, Option-cases,
}
use batasd.Common.Int.{
  ℤ, pos, negsuc, pos_part, ltb_ℤ, leb_ℤ, ◌≤ℤ◌, add_int64, add_int64_pos, quot_ℤ,
}
use batasd.Common.Str.{Str}
use batasd.Submission.Model.{Limits}
use batasd.Sandbox.{SandboxResult}

-- How often a submission is run; a count of 1 or more.
unfoldable pub run_count : Limits → ℕ
run_count limits = if leb_ℤ limits.runs (pos 0) then 1 else pos_part limits.runs

-- `runAggregate`; `result` is the zero value until the first run.
pub record Aggregate : Type 0 where
  pub result : SandboxResult
  pub count : ℕ
  pub time_ms : ℤ
  pub wall_time_ms : ℤ
  pub memory_kb : Option ℤ

abbrev pub zero_result : SandboxResult
zero_result = record {
  stdout = [];
  stderr = [];
  stdout_limit = false;
  stderr_limit = false;
  message = [];
  exit_code = none;
  exit_signal = none;
  time_ms = pos 0;
  wall_time_ms = pos 0;
  memory_kb = none;
  timed_out = false;
  memory_limit = false;
  output_limit = false;
  failure = none;
}

abbrev pub zero_aggregate : Aggregate
zero_aggregate = record {
  result = zero_result;
  count = 0;
  time_ms = pos 0;
  wall_time_ms = pos 0;
  memory_kb = none;
}

-- The memory that the aggregate keeps after a run.
unfoldable pub add_memory : Option ℤ → Option ℤ → Option ℤ
add_memory kept none = kept
add_memory none (some m) = some m
add_memory (some k) (some m) = if ltb_ℤ k m then some m else some k

unfoldable pub add : Aggregate → SandboxResult → Aggregate
unfolding add_memory
add a run = record {
  result = run;
  count = suc a.count;
  time_ms = add_int64 a.time_ms run.time_ms;
  wall_time_ms = add_int64 a.wall_time_ms run.wall_time_ms;
  memory_kb = add_memory a.memory_kb run.memory_kb;
}

unfoldable pub averaged : ℕ → Aggregate → SandboxResult
averaged zero a = a.result
averaged (suc n) a = record a.result {
  time_ms = quot_ℤ a.time_ms (suc n);
  wall_time_ms = quot_ℤ a.wall_time_ms (suc n);
  memory_kb = a.memory_kb;
}

unfoldable pub aggregate_result : Aggregate → SandboxResult
unfolding averaged
aggregate_result a = averaged a.count a

-- The runs of a submission, added one after the other.
unfoldable pub add_all : Aggregate → List SandboxResult → Aggregate
unfolding add
add_all a [] = a
add_all a (run ∷ runs) = add_all (add a run) runs
