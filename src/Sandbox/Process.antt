-- ===== src/Sandbox/Process.antt =====
-- What the drivers of internal/sandbox ask of the operating system, how a child process ends, and
-- the part of a result that the three drivers fill in alike.
use batasd.Common.{some, false, ℕ, Bool, ◌||◌, List, Option, none, [], true}
use batasd.Common.Int.{ℤ, pos}
use batasd.Common.Str.{Str}
use batasd.Common.Errors.{Error, Result, ok, err}
use batasd.Common.Effects.{Io}
use batasd.Submission.Model.{Limits}
use batasd.Sandbox.{SandboxResult}
use batasd.Sandbox.Output.{OutputBuffer, max_output_bytes, new_output_buffer, write_all}

-- exec.CommandContext with its standard input and directory (empty for the caller's own), under a
-- context that ends behind `timeout` nanoseconds.
pub record Spawn : Type 0 where
  pub program : Str
  pub args : List Str
  pub dir : Str
  pub input : Str
  pub timeout : ℤ

-- The error of cmd.Wait: an *exec.ExitError with its code and the name of the signal that ended the
-- process, if one did, or another error.
pub data WaitError : Type 0 where
  exited : (code : ℤ) (signal : Option Str) → WaitError
  broken : Error → WaitError

-- What the two pipes delivered, piece by piece, how the wait ended, the milliseconds that it took,
-- and whether the context had then passed its deadline.
pub record Ending : Type 0 where
  pub stdout_writes : List Str
  pub stderr_writes : List Str
  pub wait_error : Option WaitError
  pub elapsed_ms : ℤ
  pub past_deadline : Bool

-- What a short command printed on its standard output, on both outputs together, and its error.
pub record Answer : Type 0 where
  pub output : Str
  pub combined : Str
  pub failure : Option Error

-- A file, as os.Open and the reads behind it give it: missing, out of reach, or its bytes and the
-- error that a reader meets behind the last of them.
pub data FileRead : Type 0 where
  missing : FileRead
  out_of_reach : Error → FileRead
  bytes : (content : Str) (read_error : Option Error) → FileRead

-- The operations on a world W. `spawn` opens the pipes, starts the process and waits for it; its
-- error is the one of the step that failed. `call` runs a command to its end.
pub record Host (W : Type 0) : Type 0 where
  pub abs : Str → Io W Str
  pub look_path : Str → Io W Str
  pub random_bytes : ℕ → Io W Str
  pub create_temp : Str → Io W Str
  pub remove : Str → W → W
  pub read_file : Str → W → FileRead
  pub call : Spawn → W → Answer × W
  pub spawn : Spawn → Io W Ending

-- `sandbox.Result{Err: err}`.
unfoldable pub failed_result : Error → SandboxResult
failed_result e = record {
  stdout = [];
  stderr = [];
  stdout_limit = false;
  stderr_limit = false;
  message = [];
  exit_code = none;
  exit_signal = none;
  time_ms = pos 0;
  wall_time_ms = pos 0;
  memory_kb = none;
  timed_out = false;
  memory_limit = false;
  output_limit = false;
  failure = some e;
}

-- `if err != nil { return sandbox.Result{Err: err} }`, for the whole chain.
unfoldable pub settle : Result SandboxResult → SandboxResult
unfolding failed_result
settle (ok result) = result
settle (err e) = failed_result e

-- The buffer of a pipe, at the end of the copy into it. Its callback is the `cancel` of the context.
unfoldable pub copied : Limits → List Str → OutputBuffer
unfolding write_all new_output_buffer max_output_bytes
copied limits writes = (write_all (new_output_buffer (max_output_bytes limits) true) writes).0

-- The result before the end of the process is looked at.
unfoldable pub captured : Limits → Ending → SandboxResult
unfolding copied
captured limits ending =
    let stdout = copied limits ending.stdout_writes in
    let stderr = copied limits ending.stderr_writes in
    record {
      stdout = stdout.buf;
      stderr = stderr.buf;
      stdout_limit = stdout.exceeded;
      stderr_limit = stderr.exceeded;
      message = [];
      exit_code = none;
      exit_signal = none;
      time_ms = ending.elapsed_ms;
      wall_time_ms = ending.elapsed_ms;
      memory_kb = none;
      timed_out = false;
      memory_limit = false;
      output_limit = stdout.exceeded || stderr.exceeded;
      failure = none;
    }

-- `defer`: what is done behind a step, whether or not it failed.
unfoldable pub deferred : {W A : Type 0} → (W → W) → Io W A → Io W A
deferred last step w = ((step w).0, last (step w).1)
