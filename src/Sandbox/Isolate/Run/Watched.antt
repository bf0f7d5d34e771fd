-- ===== src/Sandbox/Isolate/Run/Watched.antt =====
-- What is watched of a run in internal/sandbox/isolate/isolate.go, and the order that it keeps.
use batasd.Common.{Bool, List, [], ◌∷◌, ◌++◌, ℕ, Option, none, some}
use batasd.Common.Str.{Str, lit}
use batasd.Common.Errors.{Error, Result, ok, err}
use batasd.Sandbox.{Command}
use batasd.Sandbox.Watched.{Event, took, gave, answered, started, Log, watched}
use batasd.Sandbox.Process.{Host}
use batasd.Sandbox.Isolate.Args.{base_args, run_args}
use batasd.Sandbox.Isolate.Run.{Boxes, Runner}

-- A host that keeps the log with the error of each call, if it answered with one.
abbrev pub watched_host : {W : Type 0} → Host W → Host (W × Log)
watched_host h = record (watched h) {
  call = λ s (w, log).
      ((h.call s w).0, ((h.call s w).1, answered s.args (h.call s w).0.failure ∷ log));
}

-- A pool that keeps the log, and otherwise does what the given one does.
abbrev pub log_receive : Result ℕ → Log → Log
log_receive (ok box) log = took box ∷ log
log_receive (err e) log = log

abbrev pub watched_boxes : {W : Type 0} → Boxes W → Boxes (W × Log)
watched_boxes boxes = record {
  receive =
      λ (w, log). ((boxes.receive w).0, ((boxes.receive w).1, log_receive (boxes.receive w).0 log));
  send = λ box (w, log). (boxes.send box w, gave box ∷ log);
}

abbrev pub watched_runner : {W : Type 0} → Runner W → Runner (W × Log)
watched_runner r = record {
  binary = r.binary;
  use_cg = r.use_cg;
  boxes = elim r.boxes [ none ↦ none | some boxes ↦ some (watched_boxes boxes) ];
}

-- What a run does, the latest event first: it gets no box; or it gets one and gives it back last of
-- all, and in between it initializes the box. When the initialization fails there is nothing else;
-- when it goes well the box is cleaned up behind it, whatever comes of that, and only in between a
-- process may be started, at most one.
pub data Story (use_cg : Bool) : List Event → Type 0 where
  no_box : Story use_cg []
  not_ready :
      (box : ℕ) (e : Error)
      → Story use_cg (
          gave box
          ∷ answered (base_args use_cg box ++ (lit "--init" ∷ [])) (some e)
          ∷ took box
          ∷ [])
  not_started :
      (box : ℕ) (cleanup_error : Option Error)
      → Story use_cg (
          gave box
          ∷ answered (base_args use_cg box ++ (lit "--cleanup" ∷ [])) cleanup_error
          ∷ answered (base_args use_cg box ++ (lit "--init" ∷ [])) none
          ∷ took box
          ∷ [])
  was_started :
      (box : ℕ) (host_dir meta_path : Str) (command : Command) (cleanup_error : Option Error)
      → Story use_cg (
          gave box
          ∷ answered (base_args use_cg box ++ (lit "--cleanup" ∷ [])) cleanup_error
          ∷ started (run_args use_cg box host_dir meta_path command)
          ∷ answered (base_args use_cg box ++ (lit "--init" ∷ [])) none
          ∷ took box
          ∷ [])
