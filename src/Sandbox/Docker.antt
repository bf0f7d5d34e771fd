-- ===== src/Sandbox/Docker.antt =====
-- internal/sandbox/docker/docker.go: running a command in a container of its own.
pub mod Removed
use batasd.Common.{
  ℕ, ◌+◌, ◌/◌, ◌%◌, Bool, true, false, List, [], ◌∷◌, ◌++◌, Option, none, some, if◌then◌else◌, ltb,
  ◌==◌,
}
use batasd.Common.Int.{ℤ, pos, negsuc, ltb_ℤ, leb_ℤ, scale_int64}
use batasd.Common.Str.{Str, lit, is_empty, trim_space, format_int}
use batasd.Common.Strconv.{equal_fold}
use batasd.Common.Errors.{Result, ok, err, other}
use batasd.Common.Effects.{Io, ◌>>=◌, ◌>>◌, lift, return}
use batasd.Submission.Model.{Limits}
use batasd.Sandbox.{Command, SandboxResult}
use batasd.Sandbox.Process.{
  Host, Ending, WaitError, exited, broken, Answer, Spawn, settle, captured, deferred,
}

abbrev pub workspace_dir : Str
workspace_dir = lit "/workspace"

pub record Runner : Type 0 where
  pub binary : Str
  pub image : Str

-- `if timeout <= 0 { timeout = 10 * time.Second }`; the direct driver has the same lines.
unfoldable pub run_timeout : ℤ → ℤ
unfolding scale_int64
run_timeout wall_time_ms =
    let timeout = scale_int64 1000000 wall_time_ms in
    if leb_ℤ timeout (pos 0) then pos 10000000000 else timeout

abbrev hex_digit : ℕ → ℕ
hex_digit n = if ltb n 10 then b'0' + n else b'W' + n

-- hex.EncodeToString.
unfoldable pub encode_hex : Str → Str
encode_hex [] = []
encode_hex (c ∷ s) = hex_digit (c / 16) ∷ hex_digit (c % 16) ∷ encode_hex s

unfoldable pub container_name : Str → Str
unfolding encode_hex
container_name bytes = lit "batasd-" ++ encode_hex bytes

unfoldable pub network_args : Limits → List Str
network_args l = if l.network then [] else lit "--network" ∷ lit "none" ∷ []

unfoldable pub pids_args : Limits → List Str
unfolding format_int
pids_args l =
    if ltb_ℤ (pos 0) l.max_processes
    then lit "--pids-limit" ∷ format_int l.max_processes ∷ []
    else []

unfoldable pub memory_args : Limits → List Str
unfolding format_int
memory_args l =
    if ltb_ℤ (pos 0) l.memory_kb
    then lit "--memory"
      ∷ (format_int l.memory_kb ++ lit "k")
      ∷ lit "--memory-swap"
      ∷ (format_int l.memory_kb ++ lit "k")
      ∷ []
    else []

-- What every container gets.
unfoldable pub fixed_args : Str → Str → List Str
fixed_args container_name host_dir =
    lit "run"
    ∷ lit "--interactive"
    ∷ lit "--name"
    ∷ container_name
    ∷ lit "--workdir"
    ∷ workspace_dir
    ∷ lit "--volume"
    ∷ (host_dir ++ (lit ":" ++ (workspace_dir ++ lit ":rw")))
    ∷ lit "--tmpfs"
    ∷ lit "/tmp:rw,nosuid,nodev,noexec,size=64m"
    ∷ lit "--cap-drop"
    ∷ lit "ALL"
    ∷ lit "--security-opt"
    ∷ lit "no-new-privileges"
    ∷ lit "--read-only"
    ∷ lit "--env"
    ∷ lit "CGO_ENABLED=0"
    ∷ lit "--env"
    ∷ lit "GOCACHE=/workspace/.cache/go-build"
    ∷ lit "--env"
    ∷ lit "GOMODCACHE=/workspace/.cache/go-mod"
    ∷ lit "--env"
    ∷ lit "PYTHONDONTWRITEBYTECODE=1"
    ∷ []

unfoldable pub docker_args : Str → Str → Str → Command → List Str
unfolding fixed_args network_args pids_args memory_args
docker_args image container_name host_dir command =
    fixed_args container_name host_dir
    ++ (network_args command.limits
        ++ (pids_args command.limits ++ (memory_args command.limits ++ (image ∷ command.args))))

unfoldable pub docker_oom_killed : Str → Bool
unfolding equal_fold trim_space
docker_oom_killed output = equal_fold (trim_space output) (lit "true")

abbrev is_nil : List Str → Bool
is_nil [] = true
is_nil (a ∷ s) = false

-- 125 is the exit code of a docker command that could not run the container.
abbrev is_125 : ℤ → Bool
is_125 (pos n) = n == 125
is_125 (negsuc n) = false

unfoldable pub with_exit : ℤ → Option Str → SandboxResult → SandboxResult
unfolding trim_space
with_exit code signal r =
    if is_125 code
    then record r { failure = some (other (lit "docker run failed: " ++ trim_space r.stderr)) }
    else record r {
      exit_code = some code;
      exit_signal = elim signal [ none ↦ r.exit_signal | some name ↦ some name ];
    }

-- The deadline, and then the error of the wait.
unfoldable pub with_end : Bool → Option WaitError → SandboxResult → SandboxResult
unfolding with_exit
with_end true wait_error r = record r { timed_out = true; message = lit "wall time limit exceeded" }
with_end false none r = record r { exit_code = some (pos 0) }
with_end false (some (exited code signal)) r = with_exit code signal r
with_end false (some (broken e)) r = record r { failure = some e }

unfoldable pub classify : Limits → Ending → Bool → SandboxResult
unfolding captured with_end
classify limits ending oom_killed =
    with_end ending.past_deadline ending.wait_error
      (record (captured limits ending) { memory_limit = oom_killed })

module _ {W : Type 0} (h : Host W) (r : Runner) where
  -- A short docker command under its own context.
  unfoldable pub docker : List Str → Spawn
  docker args = record {
    program = r.binary;
    args = args;
    dir = [];
    input = [];
    timeout = pos 5000000000;
  }

  unfoldable pub oom_answer : Answer → Bool
  unfolding docker_oom_killed
  oom_answer answer = elim answer.failure [
    | none ↦ docker_oom_killed answer.output
    | some e ↦ false
  ]

  unfoldable pub inspect_oom : Str → W → Bool × W
  unfolding docker oom_answer
  inspect_oom name w =
      let (answer, w') =
        h.call (docker (lit "inspect" ∷ lit "--format" ∷ lit "{{.State.OOMKilled}}" ∷ name ∷ []))
          w in
      (oom_answer answer, w')

  unfoldable pub force_remove : Str → W → W
  unfolding docker
  force_remove name w = (h.call (docker (lit "rm" ∷ lit "-f" ∷ name ∷ [])) w).1

  unfoldable pub random_container_name : Io W Str
  unfolding container_name
  random_container_name = do bytes ← h.random_bytes 8; return (container_name bytes)

  unfoldable pub spawned : Str → Str → Command → Spawn
  unfolding docker_args run_timeout
  spawned name host_dir command = record {
    program = r.binary;
    args = docker_args r.image name host_dir command;
    dir = [];
    input = command.input;
    timeout = run_timeout command.limits.wall_time_ms;
  }

  unfoldable pub execute : Str → Str → Command → Io W SandboxResult
  unfolding spawned inspect_oom classify
  execute name host_dir command = do
    ending ← h.spawn (spawned name host_dir command)
    λ w.
        let (oom_killed, w') = inspect_oom name w in
        (ok (classify command.limits ending oom_killed), w')

  unfoldable pub check_run : Command → Result (Unit {0})
  unfolding trim_space
  check_run command =
      if is_nil command.args
      then err (other (lit "command args cannot be empty"))
      else if is_empty (trim_space r.binary)
      then err (other (lit "docker binary cannot be empty"))
      else if is_empty (trim_space r.image)
      then err (other (lit "docker image cannot be empty"))
      else ok tt

  unfoldable pub try_run : Command → Io W SandboxResult
  unfolding check_run random_container_name execute force_remove deferred
  try_run command = do
    lift (check_run command)
    host_dir ← h.abs command.dir
    name ← random_container_name
    deferred (force_remove name) (execute name host_dir command)

  unfoldable pub run : Command → W → SandboxResult × W
  unfolding try_run settle
  run command w = (settle (try_run command w).0, (try_run command w).1)
