-- ===== src/Sandbox/Direct.antt =====
-- internal/sandbox/direct/direct.go: running a command as a child of the service itself.
use batasd.Common.{Bool, true, false, List, [], ◌∷◌, Option, none, some}
use batasd.Common.Int.{pos}
use batasd.Common.Str.{Str, lit}
use batasd.Common.Errors.{err, other}
use batasd.Common.Effects.{Io, ◌>>=◌, return}
use batasd.Submission.Model.{Limits}
use batasd.Sandbox.{Command, SandboxResult}
use batasd.Sandbox.Process.{Host, Ending, WaitError, exited, broken, Spawn, settle, captured}
use batasd.Sandbox.Docker.{run_timeout}

-- The deadline, and then the error of the wait.
unfoldable pub with_end : Bool → Option WaitError → SandboxResult → SandboxResult
with_end true wait_error r = record r { timed_out = true; message = lit "wall time limit exceeded" }
with_end false none r = record r { exit_code = some (pos 0) }
with_end false (some (exited code signal)) r = record r {
  exit_code = some code;
  exit_signal = elim signal [ none ↦ r.exit_signal | some name ↦ some name ];
}
with_end false (some (broken e)) r = record r { failure = some e }

unfoldable pub classify : Limits → Ending → SandboxResult
unfolding captured with_end
classify limits ending = with_end ending.past_deadline ending.wait_error (captured limits ending)

module _ {W : Type 0} (h : Host W) where
  -- What configureCommand adds, a process group that is killed as a whole, is left to `spawn`.
  unfoldable pub spawned : Str → List Str → Command → Spawn
  unfolding run_timeout
  spawned program args command = record {
    program = program;
    args = args;
    dir = command.dir;
    input = command.input;
    timeout = run_timeout command.limits.wall_time_ms;
  }

  unfoldable pub start_with : List Str → Command → Io W SandboxResult
  unfolding spawned classify
  start_with [] command = λ w. (err (other (lit "command args cannot be empty")), w)
  start_with (program ∷ args) command = do
    ending ← h.spawn (spawned program args command)
    return (classify command.limits ending)

  unfoldable pub run : Command → W → SandboxResult × W
  unfolding start_with settle
  run command w = let (result, w') = start_with command.args command w in (settle result, w')
