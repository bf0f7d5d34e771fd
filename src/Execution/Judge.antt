-- ===== src/Execution/Judge.antt =====
-- The results of internal/execution/engine.go: which status and message a sandbox result gets.
pub mod Laws
use batasd.Common.{
  ℕ, zero, suc, Bool, true, false, ◌&&◌, ◌||◌, not, List, [], ◌∷◌, ◌++◌, Option, none, some,
  if◌then◌else◌, is_some,
}
use batasd.Common.Int.{ℤ, pos, is_zero_ℤ}
use batasd.Common.Str.{Str, lit, str_eq, is_empty, trim_right}
use batasd.Common.Errors.{Error, error_text}
use batasd.Submission.Model.{Time, SubmissionResult, Submission}
use batasd.Sandbox.{SandboxResult}
use batasd.Status.{
  compilation_error, runtime_error, time_limit_exceeded, memory_limit_exceeded,
  output_limit_exceeded, sandbox_error, wrong_answer,
}

unfoldable pub ptr_if_not_empty : Str → Option Str
ptr_if_not_empty value = if is_empty value then none else some value

unfoldable pub compile_output : SandboxResult → Option Str
unfolding ptr_if_not_empty
compile_output run = ptr_if_not_empty (
    if is_empty run.stderr
    then run.stdout
    else if is_empty run.stdout
    then run.stderr
    else run.stdout ++ (lit "\n" ++ run.stderr))

-- `result`, with or without `withMessage`.
unfoldable pub result : Str → Time → Str → SubmissionResult
unfolding ptr_if_not_empty
result status_code finished_at message = record {
  status_code = status_code;
  stdout = none;
  stderr = none;
  stdout_truncated = false;
  stderr_truncated = false;
  compile_output = none;
  compile_output_truncated = false;
  message = ptr_if_not_empty message;
  exit_code = none;
  exit_signal = none;
  time_ms = none;
  wall_time_ms = none;
  memory_kb = none;
  finished_at = finished_at;
}

abbrev or_else : Option Str → Option Str → Option Str
or_else none other = other
or_else (some message) other = some message

unfoldable pub from_sandbox : Time → Str → SandboxResult → Option Str → Str → SubmissionResult
unfolding ptr_if_not_empty
from_sandbox finished_at status_code run compiled message = record {
  status_code = status_code;
  stdout = ptr_if_not_empty run.stdout;
  stderr = ptr_if_not_empty run.stderr;
  stdout_truncated = run.stdout_limit;
  stderr_truncated = run.stderr_limit;
  compile_output = compiled;
  compile_output_truncated = is_some compiled && (run.stdout_limit || run.stderr_limit);
  message = or_else (ptr_if_not_empty message) (ptr_if_not_empty run.message);
  exit_code = run.exit_code;
  exit_signal = run.exit_signal;
  time_ms = some run.time_ms;
  wall_time_ms = some run.wall_time_ms;
  memory_kb = run.memory_kb;
  finished_at = finished_at;
}

-- A status and a message.
pub record Verdict : Type 0 where
  pub status_code : Str
  pub message : Str

-- `exitCode != nil && *exitCode != 0`.
abbrev pub is_failure : Option ℤ → Bool
is_failure none = false
is_failure (some code) = not (is_zero_ℤ code)

sandbox_failure : Option Error → Option Verdict → Option Verdict
sandbox_failure (some e) otherwise =
    some (record { status_code = sandbox_error; message = error_text e })
sandbox_failure none otherwise = otherwise

-- The ladder behind the compile command; `none` goes on to the runs.
unfoldable pub compile_verdict : SandboxResult → Option Verdict
unfolding sandbox_failure
compile_verdict r =
    if r.output_limit
    then some (record {
      status_code = output_limit_exceeded;
      message = lit "compile output limit exceeded";
    })
    else if r.timed_out
    then some
        (record { status_code = time_limit_exceeded; message = lit "compile time limit exceeded" })
    else if r.memory_limit
    then some
        (record { status_code = memory_limit_exceeded; message = lit "memory limit exceeded" })
    else sandbox_failure r.failure (
        if is_failure r.exit_code
        then some (record { status_code = compilation_error; message = lit "compilation failed" })
        else none)

-- `sub.ExpectedOutput != nil && trim(stdout) != trim(*sub.ExpectedOutput)`.
unfoldable pub mismatches : Option Str → Str → Bool
mismatches none stdout = false
mismatches (some expected) stdout = not (str_eq (trim_right stdout) (trim_right expected))

-- The ladder behind one run; `none` counts the run and goes on.
unfoldable pub run_verdict : Option Str → SandboxResult → Option Verdict
unfolding sandbox_failure
run_verdict expected r =
    if r.output_limit
    then some
        (record { status_code = output_limit_exceeded; message = lit "output limit exceeded" })
    else if r.timed_out
    then some (record { status_code = time_limit_exceeded; message = lit "time limit exceeded" })
    else if r.memory_limit
    then some
        (record { status_code = memory_limit_exceeded; message = lit "memory limit exceeded" })
    else sandbox_failure r.failure (
        if is_failure r.exit_code
        then some (record {
          status_code = runtime_error;
          message = lit "program exited with non-zero status";
        })
        else if mismatches expected r.stdout
        then some (record {
          status_code = wrong_answer;
          message = lit "output did not match expected output";
        })
        else none)
