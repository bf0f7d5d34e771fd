-- ===== src/Worker/Loop.antt =====
-- Worker.Run of internal/worker/worker.go, on what its queue gives it: a token, or an error.
pub mod Laws
use batasd.Common.{ℕ, suc, ◌+◌, Bool, true, false, List, [], ◌∷◌, if◌then◌else◌}
use batasd.Common.Str.{Str}
use batasd.Common.Errors.{Error, Result, ok, err, is_canceled}
use batasd.Store.{Database}
use batasd.Worker.{Outside, process}
use batasd.Worker.Monitor.{Monitor, set, idle, processing, stopped}

-- The tables and the world, the monitor, and how often `Done` was called.
pub record LoopState (X : Type 0) : Type 0 where
  pub world : Database × X
  pub monitor : Monitor
  pub finished : ℕ

module _ {X : Type 0} (o : Outside X) (id : ℕ) where
  -- The round of the loop for a token.
  unfoldable pub work : Str → LoopState X → LoopState X
  unfolding process set
  work token s = record {
    world = process o token (s.world.0, (o.now s.world.1).1);
    monitor = set (idle id) (set (processing id token (o.now s.world.1).0) s.monitor);
    finished = suc s.finished;
  }

  -- `defer w.monitor.MarkStopped(id)`.
  unfoldable pub stop : LoopState X → LoopState X
  unfolding set
  stop s = record s { monitor = set (stopped id) s.monitor }

  -- The rounds for what the queue gives, one after the other; without a cancellation the worker goes
  -- on waiting behind the last.
  unfoldable pub run_loop : List (Result Str) → LoopState X → LoopState X
  unfolding work stop is_canceled
  run_loop [] s = s
  run_loop (ok token ∷ events) s = run_loop events (work token s)
  run_loop (err e ∷ events) s =
      let rest = run_loop events s in if is_canceled e then stop s else rest

  unfoldable pub run_worker : List (Result Str) → LoopState X → LoopState X
  unfolding run_loop set
  run_worker events s = run_loop events (record s { monitor = set (idle id) s.monitor })
