-- ===== src/Sandbox/Docker/Removed.antt =====
-- The order in which Run of internal/sandbox/docker/docker.go makes and removes a container.
use batasd.Common.{List, [], ◌∷◌, ◌++◌, ◌≡◌, refl}
use batasd.Common.Str.{Str, lit}
use batasd.Common.Errors.{Result, ok, err}
use batasd.Common.Effects.{Io, continue_with, continue_with-elim, return}
use batasd.Sandbox.{Command, SandboxResult}
use batasd.Sandbox.Process.{Host, deferred}
use batasd.Sandbox.Watched.{Event, called, started, Log, watched}
use batasd.Sandbox.Docker.{
  Runner, docker, docker_args, inspect_oom, force_remove, random_container_name, container_name,
  spawned, execute, check_run, try_run, run,
}

abbrev removal : Str → Event
removal name = called (lit "rm" ∷ lit "-f" ∷ name ∷ [])

abbrev inspection : Str → Event
inspection name = called (lit "inspect" ∷ lit "--format" ∷ lit "{{.State.OOMKilled}}" ∷ name ∷ [])

-- What a run does, the latest event first: nothing; or it starts one container, looks at it when its
-- process could be waited for, and removes it last of all, under the name that it was started with.
pub data Story (image : Str) : List Event → Type 0 where
  no_container : Story image []
  not_waited :
      (name host_dir : Str) (command : Command)
      → Story image (removal name ∷ started (docker_args image name host_dir command) ∷ [])
  was_waited :
      (name host_dir : Str) (command : Command)
      → Story image
          (removal name ∷ inspection name ∷ started (docker_args image name host_dir command) ∷ [])

module _ {W : Type 0} (h : Host W) (r : Runner) where
  Tells : Log → Result SandboxResult × (W × Log) → Type 0
  Tells log t = (events : List Event) × Story r.image events × (t.1.1 ≡ events ++ log)

  -- A step that adds nothing to the log.
  lift-Tells :
      {A : Type 0} (log : Log) (f : A → Io (W × Log) SandboxResult) (step : Result A) (w : W)
      → ((a : A) → Tells log (f a (w, log)))
      → Tells log (continue_with f step (w, log))
  unfolding continue_with Tells
  lift-Tells log f (ok a) w next = next a
  lift-Tells log f (err e) w next = ([], no_container, refl)

  removed :
      (name host_dir : Str) (command : Command) (log : Log) (w : W)
      → Tells log (
          deferred
            (force_remove (watched h) r name)
            (execute (watched h) r name host_dir command)
            (w, log))
  unfolding deferred force_remove execute spawned docker inspect_oom Tells
  removed name host_dir command log w =
      continue_with-elim
        (λ (t : Result SandboxResult × (W × Log)).
          Tells log (t.0, force_remove (watched h) r name t.1))
        _ _ _ (λ e. (_, not_waited name host_dir command, refl))
        (λ ending. (_, was_waited name host_dir command, refl))

  named-Tells :
      (bytes : Result Str) (f : Str → Io (W × Log) SandboxResult) (log : Log) (w : W)
      → ((name : Str) → Tells log (f name (w, log)))
      → let t = continue_with {W = W × Log} (λ s. return (container_name s)) bytes (w, log) in
        Tells log (continue_with f t.0 t.1)
  unfolding continue_with Tells
  named-Tells (ok bytes) f log w next = next (container_name bytes)
  named-Tells (err e) f log w next = ([], no_container, refl)

  try_run-Tells :
      (command : Command) (w : W) (log : Log) → Tells log (try_run (watched h) r command (w, log))
  unfolding try_run random_container_name
  try_run-Tells command w log = lift-Tells log _ (check_run (watched h) r command) w (λ done.
      lift-Tells log _ (h.abs command.dir w).0 (h.abs command.dir w).1 (λ host_dir.
        named-Tells (h.random_bytes 8 (h.abs command.dir w).1).0 _ log _
          (λ name. removed name host_dir command log _)))

-- Whatever the machine does, and wherever a run of docker fails: it starts at most one container, and
-- if it starts one, the last thing it does is to remove it by force, under the name that it gave it.
pub run-Removed :
    {W : Type 0} (h : Host W) (r : Runner) (command : Command) (w : W) (log : Log)
    → (events : List Event) × Story r.image events
      × ((run (watched h) r command (w, log)).1.1 ≡ events ++ log)
unfolding run Tells
run-Removed h r command w log = try_run-Tells h r command w log
