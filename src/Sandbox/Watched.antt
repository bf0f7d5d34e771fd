-- ===== src/Sandbox/Watched.antt =====
-- A host of internal/sandbox that keeps a log of what a run asks of it.
use batasd.Common.{ℕ, List, ◌∷◌, Option}
use batasd.Common.Str.{Str}
use batasd.Common.Errors.{Error}
use batasd.Common.Effects.{Io}
use batasd.Sandbox.Process.{Host}

-- What is watched: boxes that are taken and given back, and the arguments of the processes, where
-- wanted with the error that a call answered with.
pub data Event : Type 0 where
  took : ℕ → Event
  gave : ℕ → Event
  called : List Str → Event
  answered : List Str → Option Error → Event
  started : List Str → Event

abbrev pub Log : Type 0
Log = List Event

-- A host that keeps a log, the latest event first, and otherwise does what the given one does.
abbrev pub unwatched : {W A : Type 0} → Io W A → Io (W × Log) A
unwatched step (w, log) = ((step w).0, ((step w).1, log))

abbrev pub watched : {W : Type 0} → Host W → Host (W × Log)
watched h = record {
  abs = λ path. unwatched (h.abs path);
  look_path = λ program. unwatched (h.look_path program);
  random_bytes = λ n. unwatched (h.random_bytes n);
  create_temp = λ pattern. unwatched (h.create_temp pattern);
  remove = λ path (w, log). (h.remove path w, log);
  read_file = λ path (w, log). h.read_file path w;
  call = λ s (w, log). ((h.call s w).0, ((h.call s w).1, called s.args ∷ log));
  spawn = λ s (w, log). ((h.spawn s w).0, ((h.spawn s w).1, started s.args ∷ log));
}
