-- ===== src/Sandbox/Isolate/Run/Story.antt =====
-- The order in which Run of internal/sandbox/isolate/isolate.go takes and leaves a box.
use mathlib.Core.List.{append_assoc}
use batasd.Common.{
  ap, List, [], ◌∷◌, ◌++◌, ℕ, Option, none, some, ◌≡◌, ◌⊎◌, ◌∙◌, sym, refl, Bool-cases, inl, inr,
}
use batasd.Common.Str.{Str, lit}
use batasd.Common.Errors.{Error, other, Result, ok, err}
use batasd.Common.Effects.{Io, continue_with, continue_with-elim, return}
use batasd.Sandbox.{Command, SandboxResult}
use batasd.Sandbox.Process.{Host, deferred}
use batasd.Sandbox.Isolate.Args.{base_args, run_args}
use batasd.Sandbox.Isolate.Meta.{Floats}
use batasd.Sandbox.Isolate.Run.{
  contains_byte, take_box, Boxes, Runner, manage, init_box, init_error, cleanup_box,
  resolve_executable, spawned, execute, with_meta_file, in_box, check_run, pool, try_run, run,
}
use batasd.Sandbox.Watched.{Event, took, gave, answered, started, Log}
use batasd.Sandbox.Isolate.Run.Watched.{
  log_receive, watched_boxes, watched_host, watched_runner, Story, no_box, not_ready, not_started,
  was_started,
}

module _ {W : Type 0} (floats : Floats) (h : Host W) (r : Runner W) where
  -- The log behind a step adds nothing to the log before it, or the start of a process.
  MayStart : ℕ → Str → Command → Log → Result SandboxResult × (W × Log) → Type 0
  MayStart box host_dir command log t =
      (t.1.1 ≡ log)
      ⊎ ((meta_path : Str) × (t.1.1
            ≡ started (run_args r.use_cg box host_dir meta_path command) ∷ log))

  module _ (box : ℕ) (host_dir : Str) (command : Command) where
    execute-started :
        (meta_path : Str) (w : W) (log : Log)
        → (execute floats
            (watched_host h)
            (watched_runner r)
            box
            host_dir
            command
            meta_path
            (w, log)).1.1
          ≡ started (run_args r.use_cg box host_dir meta_path command) ∷ log
    unfolding execute spawned
    execute-started meta_path w log =
        continue_with-elim
          (λ (t : Result SandboxResult × (W × Log)).
            t.1.1 ≡ started (run_args r.use_cg box host_dir meta_path command) ∷ log)
          _ _ _ (λ e. refl) (λ ending. refl)

    with_meta_file-MayStart :
        (w : W) (log : Log)
        → MayStart box host_dir command log (
            with_meta_file floats (watched_host h) (watched_runner r) box host_dir command (w, log))
    unfolding with_meta_file deferred MayStart
    with_meta_file-MayStart w log =
        continue_with-elim (MayStart box host_dir command log) _ _ _ (λ e. inl refl)
          (λ meta_path. inr (meta_path, execute-started meta_path _ log))

    -- Behind the initialization, before the box is given back.
    MayClean : Log → Result SandboxResult × (W × Log) → Type 0
    MayClean log t =
        (events : List Event) × Story r.use_cg (gave box ∷ (events ++ (took box ∷ [])))
        × (t.1.1 ≡ events ++ log)

    cleanup_event : W → Event
    unfolding manage
    cleanup_event w =
        let s = manage floats h r box (lit "--cleanup") in answered s.args (h.call s w).0.failure

    cleaned :
        (t : Result SandboxResult × (W × Log)) (log : Log)
        → MayStart box host_dir command
            (answered (base_args r.use_cg box ++ (lit "--init" ∷ [])) none ∷ log)
            t
        → MayClean log (t.0, cleanup_box floats (watched_host h) (watched_runner r) box t.1)
    unfolding MayStart MayClean cleanup_box manage cleanup_event
    cleaned t log (inl e) =
        let event = cleanup_event t.1.0 in
        (
          event ∷ answered (base_args r.use_cg box ++ (lit "--init" ∷ [])) none ∷ [],
          not_started box _,
          ap (◌∷◌ event) e,
        )
    cleaned t log (inr (meta_path, e)) =
        let event = cleanup_event t.1.0 in
        (
          event
              ∷ started (run_args r.use_cg box host_dir meta_path command)
              ∷ answered (base_args r.use_cg box ++ (lit "--init" ∷ [])) none
              ∷ [],
          was_started box host_dir meta_path command _,
          ap (◌∷◌ event) e,
        )

    -- Behind an initialization that answers with an error or with none.
    initialized-MayClean :
        (failure : Option Error) (message : Str) (w : W) (log : Log)
        (next : Io (W × Log) SandboxResult)
        → ((w : W)
            → MayClean log
                (next (w, answered (base_args r.use_cg box ++ (lit "--init" ∷ [])) none ∷ log)))
        → MayClean log (
            continue_with
              (λ (done : Unit {0}). next)
              (elim failure as (λ o. Result (Unit {0})) [
                | none ↦ ok tt
                | some e ↦ err (other message)
              ])
              (w, answered (base_args r.use_cg box ++ (lit "--init" ∷ [])) failure ∷ log))
    unfolding continue_with MayClean
    initialized-MayClean none message w log next ready = ready w
    initialized-MayClean (some e) message w log next ready = (
      answered (base_args r.use_cg box ++ (lit "--init" ∷ [])) (some e) ∷ [],
      not_ready box e,
      refl,
    )

    in_box-MayClean :
        (w : W) (log : Log)
        → MayClean log
            (in_box floats (watched_host h) (watched_runner r) box host_dir command (w, log))
    unfolding in_box deferred init_box init_error manage
    in_box-MayClean w log =
        initialized-MayClean _ _ _ log _ (λ w'. cleaned _ log (with_meta_file-MayStart w' _))

  -- The log behind a run.
  Tells : Log → Result SandboxResult × (W × Log) → Type 0
  Tells log t = (events : List Event) × Story r.use_cg events × (t.1.1 ≡ events ++ log)

  given_back :
      (box : ℕ) (host_dir : Str) (command : Command) (log : Log)
      (t : Result SandboxResult × (W × Log)) (boxes : Boxes W)
      → MayClean box host_dir command (took box ∷ log) t
      → Tells log (t.0, (watched_boxes boxes).send box t.1)
  unfolding MayClean Tells
  given_back box host_dir command log t boxes (events, story, e) =
      (_, story, ap (◌∷◌ (gave box)) (e ∙ sym (append_assoc events (took box ∷ []) log)))

  -- A step that adds nothing to the log.
  module _ {A : Type 0} (log : Log) (f : A → Io (W × Log) SandboxResult) where
    lift-Tells :
        (step : Result A) (w : W)
        → ((a : A) → Tells log (f a (w, log)))
        → Tells log (continue_with f step (w, log))
    unfolding continue_with Tells
    lift-Tells (ok a) w next = next a
    lift-Tells (err e) w next = ([], no_box, refl)

  receive-Tells :
      (boxes : Boxes W) (host_dir : Str) (command : Command) (log : Log) (received : Result ℕ)
      (w : W)
      → Tells log (
          continue_with
            (λ box.
              deferred
                ((watched_boxes boxes).send box)
                (in_box floats (watched_host h) (watched_runner r) box host_dir command))
            received
            (w, log_receive received log))
  unfolding continue_with Tells deferred
  receive-Tells boxes host_dir command log (ok box) w =
      given_back box host_dir command log _ boxes
        (in_box-MayClean box host_dir command w (took box ∷ log))
  receive-Tells boxes host_dir command log (err e) w = ([], no_box, refl)

  take_box-Tells :
      (boxes : Boxes W) (host_dir : Str) (command : Command) (w : W) (log : Log)
      → Tells log (
          take_box floats
            (watched_host h)
            (watched_runner r)
            (watched_boxes boxes)
            host_dir
            command
            (w, log))
  unfolding take_box
  take_box-Tells boxes host_dir command w log =
      receive-Tells boxes host_dir command log (boxes.receive w).0 (boxes.receive w).1

  look_path-Tells :
      (args : List Str) (log : Log) (f : List Str → Io (W × Log) SandboxResult) (found : Result Str)
      (w : W)
      → ((args : List Str) (w : W) → Tells log (f args (w, log)))
      → let t = continue_with {W = W × Log} (λ path. return (path ∷ args)) found (w, log) in
        Tells log (continue_with f t.0 t.1)
  unfolding continue_with Tells
  look_path-Tells args log f (ok path) w next = next (path ∷ args) w
  look_path-Tells args log f (err e) w next = ([], no_box, refl)

  resolve_executable-Tells :
      (args : List Str) (log : Log) (f : List Str → Io (W × Log) SandboxResult) (w : W)
      → ((args : List Str) (w : W) → Tells log (f args (w, log)))
      → let t = resolve_executable floats (watched_host h) (watched_runner r) args (w, log) in
        Tells log (continue_with f t.0 t.1)
  unfolding resolve_executable continue_with
  resolve_executable-Tells [] log f w next = next [] w
  resolve_executable-Tells (program ∷ args) log f w next =
      elim (Bool-cases (contains_byte b'/' program)) [
        | inl path ↦ rw path (next (program ∷ args) w)
        | inr name ↦
            rw name
              (look_path-Tells args log f (h.look_path program w).0 (h.look_path program w).1 next)
      ]

  pool-Tells :
      (boxes : Option (Boxes W)) (log : Log) (f : Boxes (W × Log) → Io (W × Log) SandboxResult)
      (w : W)
      → r.boxes ≡ boxes
      → ((boxes : Boxes W) → Tells log (f (watched_boxes boxes) (w, log)))
      → Tells log (continue_with f (pool floats (watched_host h) (watched_runner r)) (w, log))
  unfolding pool continue_with Tells
  pool-Tells none log f w e next = rw e ([], no_box, refl)
  pool-Tells (some boxes) log f w e next = rw e (next boxes)

  try_run-Tells :
      (command : Command) (w : W) (log : Log)
      → Tells log (try_run floats (watched_host h) (watched_runner r) command (w, log))
  unfolding try_run
  try_run-Tells command w log =
      lift-Tells log _ (check_run floats (watched_host h) (watched_runner r) command) w (λ done.
        pool-Tells r.boxes log _ w refl (λ boxes.
          lift-Tells log _ (h.abs command.dir w).0 (h.abs command.dir w).1 (λ host_dir.
            resolve_executable-Tells command.args log _ _
              (λ args w'. take_box-Tells boxes host_dir (record command { args = args }) w' log))))

-- Whatever the machine does, and wherever a run of isolate fails: it takes at most one box; if it
-- takes one, it gives it back, as the last thing it does; it initializes the box before anything
-- else; when that fails it does nothing else to the box, and when it goes well it cleans the box up
-- before giving it back; and it starts at most one process, between the two, with the arguments of a
-- run in that box.
pub run-Story :
    {W : Type 0} (floats : Floats) (h : Host W) (r : Runner W) (command : Command) (w : W)
    (log : Log)
    → (events : List Event) × Story r.use_cg events
      × ((run floats (watched_host h) (watched_runner r) command (w, log)).1.1 ≡ events ++ log)
unfolding run Tells
run-Story floats h r command w log = try_run-Tells floats h r command w log
