-- ===== src/Sandbox/Isolate/Run.antt =====
-- A run in a box: the steps of Run and its deferred calls, and what it makes of a finished process.
pub mod Ended
pub mod Watched
pub mod Story
use batasd.Common.{
  ℕ, Bool, true, false, ◌&&◌, ◌||◌, not, List, [], ◌∷◌, ◌++◌, Option, none, some, if◌then◌else◌,
  ◌==◌, is_some,
}
use batasd.Common.Int.{ℤ, pos, negsuc, add_int64}
use batasd.Common.Str.{Str, lit, is_empty, trim_space, format_int}
use batasd.Common.Strconv.{contains_byte}
use batasd.Common.Errors.{Error, Result, ok, err, other, fail_if}
use batasd.Common.Effects.{Io, ◌>>=◌, ◌>>◌, lift, return}
use batasd.Submission.Model.{Limits}
use batasd.Sandbox.{Command, SandboxResult}
use batasd.Sandbox.Process.{
  Host, Ending, WaitError, exited, broken, Answer, Spawn, settle, captured, deferred,
}
use batasd.Sandbox.Isolate.Args.{base_args, run_args, wall_timeout, manager_grace_timeout}
use batasd.Sandbox.Isolate.Meta.{
  Floats, MetaRead, values, not_there, failed, apply_meta, read_meta_file, with_default_message,
}

abbrev pub is_one : ℤ → Bool
is_one (pos n) = n == 1
is_one (negsuc n) = false

abbrev pub is_nil : List Str → Bool
is_nil [] = true
is_nil (a ∷ s) = false

-- The exit code of the process, unless the meta file says how the program ended.
unfoldable pub with_code : ℤ → SandboxResult → SandboxResult
with_code code r =
    if not (is_some r.exit_code) && (not (is_some r.exit_signal) && not r.timed_out)
    then record r { exit_code = some code }
    else r

-- `errors.As(waitErr, &exitErr)`: 1 is how isolate reports a program that failed.
unfoldable pub with_exit : ℤ → Option Str → SandboxResult → SandboxResult
unfolding with_code format_int trim_space
with_exit code signal r = if is_one code then with_code code r else record r {
  failure = some (
      other (
        lit "isolate run failed with exit code "
        ++ (format_int code ++ (lit ": " ++ trim_space r.stderr))));
  exit_signal = elim signal [ none ↦ r.exit_signal | some name ↦ some name ];
}

unfoldable pub with_wait : Option WaitError → SandboxResult → SandboxResult
unfolding with_code with_exit
with_wait none r = with_code (pos 0) r
with_wait (some (exited code signal)) r = with_exit code signal r
with_wait (some (broken e)) r = record r { failure = some e }

-- The deadline, an unreadable meta file and the error of the wait, in this order. A meta file that
-- is missing adds nothing.
unfoldable pub with_end : Bool → Option Error → Option WaitError → SandboxResult → SandboxResult
unfolding with_default_message with_wait
with_end true meta_error wait_error r =
    with_default_message (lit "wall time limit exceeded") (record r { timed_out = true })
with_end false (some e) wait_error r = record r { failure = some e }
with_end false none wait_error r = with_wait wait_error r

unfoldable pub classify : Floats → Limits → Ending → MetaRead → SandboxResult
unfolding captured apply_meta with_end
classify floats limits ending (values m) =
    with_end ending.past_deadline none ending.wait_error
      (apply_meta floats m (captured limits ending))
classify floats limits ending not_there =
    with_end ending.past_deadline none ending.wait_error (captured limits ending)
classify floats limits ending (failed e) =
    with_end ending.past_deadline (some e) ending.wait_error (captured limits ending)

-- The channel of box IDs: `receive` is the select of acquireBox, which fails when the context ends
-- first; `send` is releaseBox.
pub record Boxes (W : Type 0) : Type 0 where
  pub receive : Io W ℕ
  pub send : ℕ → W → W

-- `boxes` is none for a channel that is nil.
pub record Runner (W : Type 0) : Type 0 where
  pub binary : Str
  pub use_cg : Bool
  pub boxes : Option (Boxes W)

module _ {W : Type 0} (floats : Floats) (h : Host W) (r : Runner W) where
  -- A command of isolate that is given the grace time.
  unfoldable pub manage : ℕ → Str → Spawn
  unfolding base_args
  manage box_id option = record {
    program = r.binary;
    args = base_args r.use_cg box_id ++ (option ∷ []);
    dir = [];
    input = [];
    timeout = manager_grace_timeout;
  }

  unfoldable pub init_error : Answer → Result (Unit {0})
  unfolding trim_space
  init_error answer = elim answer.failure [
    | none ↦ ok tt
    | some e ↦ err (other (lit "isolate init failed: " ++ trim_space answer.combined))
  ]

  unfoldable pub init_box : ℕ → Io W (Unit {0})
  unfolding manage init_error
  init_box box_id w =
      let (answer, w') = h.call (manage box_id (lit "--init")) w in (init_error answer, w')

  unfoldable pub cleanup_box : ℕ → W → W
  unfolding manage
  cleanup_box box_id w = (h.call (manage box_id (lit "--cleanup")) w).1

  unfoldable pub resolve_executable : List Str → Io W (List Str)
  unfolding contains_byte
  resolve_executable [] = return []
  resolve_executable (program ∷ args) =
      if contains_byte b'/' program
      then return (program ∷ args)
      else (h.look_path program >>= λ path. return (path ∷ args))

  unfoldable pub spawned : ℕ → Str → Str → Command → Spawn
  unfolding run_args wall_timeout
  spawned box_id host_dir meta_path command = record {
    program = r.binary;
    args = run_args r.use_cg box_id host_dir meta_path command;
    dir = [];
    input = command.input;
    timeout = add_int64 (wall_timeout command.limits.wall_time_ms) manager_grace_timeout;
  }

  unfoldable pub execute : ℕ → Str → Command → Str → Io W SandboxResult
  unfolding spawned classify read_meta_file
  execute box_id host_dir command meta_path = do
    ending ← h.spawn (spawned box_id host_dir meta_path command)
    λ w. (ok (classify floats command.limits ending (read_meta_file (h.read_file meta_path w))), w)

  unfoldable pub with_meta_file : ℕ → Str → Command → Io W SandboxResult
  unfolding execute deferred
  with_meta_file box_id host_dir command = do
    meta_path ← h.create_temp (lit "batasd-isolate-meta-*")
    deferred (h.remove meta_path) (execute box_id host_dir command meta_path)

  unfoldable pub in_box : ℕ → Str → Command → Io W SandboxResult
  unfolding init_box cleanup_box with_meta_file deferred
  in_box box_id host_dir command = do
    init_box box_id
    deferred (cleanup_box box_id) (with_meta_file box_id host_dir command)

  unfoldable pub check_run : Command → Result (Unit {0})
  unfolding fail_if trim_space
  check_run command =
      if is_nil command.args
      then err (other (lit "command args cannot be empty"))
      else if is_empty (trim_space r.binary)
      then err (other (lit "isolate binary cannot be empty"))
      else ok tt

  unfoldable pub pool : Result (Boxes W)
  pool = elim r.boxes [
    | none ↦ err (other (lit "isolate box pool is not configured"))
    | some boxes ↦ ok boxes
  ]

  unfoldable pub take_box : Boxes W → Str → Command → Io W SandboxResult
  unfolding in_box deferred
  take_box boxes host_dir command = do
    box_id ← boxes.receive
    deferred (boxes.send box_id) (in_box box_id host_dir command)

  unfoldable pub try_run : Command → Io W SandboxResult
  unfolding check_run pool resolve_executable take_box
  try_run command = do
    lift (check_run command)
    boxes ← lift pool
    host_dir ← h.abs command.dir
    args ← resolve_executable command.args
    take_box boxes host_dir (record command { args = args })

  unfoldable pub run : Command → W → SandboxResult × W
  unfolding try_run settle
  run command w = (settle (try_run command w).0, (try_run command w).1)
