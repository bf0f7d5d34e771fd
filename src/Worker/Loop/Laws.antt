-- ===== src/Worker/Loop/Laws.antt =====
-- What Worker.Run of internal/worker/worker.go leaves behind.
use batasd.Common.{
  ℕ, ◌+◌, Bool, true, false, List, [], ◌∷◌, some, ◌≡◌, inl, inr, refl, arith, if◌then◌else◌, length,
  Bool-cases, ◌==◌, ==_iff,
}
use batasd.Common.Str.{Str}
use batasd.Common.Errors.{Result, ok, err, is_canceled}
use batasd.Store.{Database}
use batasd.Worker.{Outside, process}
use batasd.Worker.Monitor.{Monitor, WorkerSnapshot, set, find_worker, idle, stopped}
use batasd.Worker.Loop.{LoopState, work, stop, run_loop, run_worker}

-- The tokens that come before a cancellation, and whether one comes.
abbrev pub tokens_in : List (Result Str) → List Str
tokens_in [] = []
tokens_in (ok token ∷ events) = token ∷ tokens_in events
tokens_in (err e ∷ events) = if is_canceled e then [] else tokens_in events

abbrev pub is_cancelled : List (Result Str) → Bool
is_cancelled [] = false
is_cancelled (ok token ∷ events) = is_cancelled events
is_cancelled (err e ∷ events) = if is_canceled e then true else is_cancelled events

same_id : (s : WorkerSnapshot) → (s.id == s.id) ≡ true
same_id s = (==_iff s.id s.id).1 refl

find_worker-set : (s : WorkerSnapshot) (m : Monitor) → find_worker s.id (set s m) ≡ some s
unfolding find_worker set
find_worker-set s [] = rw (same_id s) refl
find_worker-set s (t ∷ m) = elim (Bool-cases (t.id == s.id)) [
  | inl same ↦ rw (same, set, find_worker) (rw (same_id s) refl)
  | inr other ↦ rw (other, set, find_worker) (rw other (find_worker-set s m))
]

module _ {X : Type 0} (o : Outside X) (id : ℕ) where
  -- Processing tokens one after the other, with the reading of the clock before each.
  abbrev pub process_all : List Str → Database × X → Database × X
  process_all [] w = w
  process_all (token ∷ tokens) w = process_all tokens (process o token (w.0, (o.now w.1).1))

  run_loop-world :
      (events : List (Result Str)) (s : LoopState X)
      → ((run_loop o id events s).world ≡ process_all (tokens_in events) s.world)
        × ((run_loop o id events s).finished ≡ s.finished + length (tokens_in events))
  unfolding run_loop work stop
  run_loop-world [] s = (refl, omega arith)
  run_loop-world (ok token ∷ events) s =
      let (world, finished) = run_loop-world events (work o id token s) in
      (world, omega (arith, finished))
  run_loop-world (err e ∷ events) s = elim (Bool-cases (is_canceled e)) [
    | inl over ↦ rw (over, run_loop) (refl, omega arith)
    | inr other ↦ rw (other, run_loop) (run_loop-world events s)
  ]

  -- Where the worker stands when the loop is over or waits.
  abbrev pub resting : Bool → WorkerSnapshot
  resting true = stopped id
  resting false = idle id

  run_loop-monitor :
      (events : List (Result Str)) (s : LoopState X)
      → find_worker id s.monitor ≡ some (idle id)
      → find_worker id (run_loop o id events s).monitor ≡ some (resting (is_cancelled events))
  unfolding run_loop work stop
  run_loop-monitor [] s waits = waits
  run_loop-monitor (ok token ∷ events) s waits =
      run_loop-monitor events (work o id token s) (find_worker-set (idle id) _)
  run_loop-monitor (err e ∷ events) s waits = elim (Bool-cases (is_canceled e)) [
    | inl over ↦ rw (over, run_loop) (find_worker-set (stopped id) s.monitor)
    | inr other ↦ rw (other, run_loop) (run_loop-monitor events s waits)
  ]

  -- Whatever the queue gives a worker, it processes the tokens that come before a cancellation, in
  -- their order, and calls Done once for each; other errors change nothing; and the monitor shows the
  -- worker stopped when there is a cancellation, and idle when there is none.
  pub run_worker_cases :
      (events : List (Result Str)) (s : LoopState X)
      → ((run_worker o id events s).world ≡ process_all (tokens_in events) s.world)
        × ((run_worker o id events s).finished ≡ s.finished + length (tokens_in events))
        × (find_worker id (run_worker o id events s).monitor ≡ some (resting (is_cancelled events)))
  unfolding run_worker
  run_worker_cases events s =
      let ready = record s { monitor = set (idle id) s.monitor } in
      let (world, finished) = run_loop-world events ready in
      (world, finished, run_loop-monitor events ready (find_worker-set (idle id) s.monitor))
