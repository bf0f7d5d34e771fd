-- ===== src/Worker/Monitor.antt =====
-- internal/worker/monitor.go: what the workers of the process are doing. Each method holds the mutex
-- throughout, so a call is one step.
use batasd.Common.{
  ℕ, zero, suc, ◌-◌, ◌/◌, ◌^◌, min, List, [], ◌∷◌, Option, none, some, if◌then◌else◌, ◌==◌, leb,
  map,
}
use batasd.Common.Int.{ℤ, pos}
use batasd.Common.Str.{Str, lit, is_empty}
use batasd.Submission.Model.{Time}

-- Workers are numbered from 1; a zero `started_at` is the zero time.
pub record WorkerSnapshot : Type 0 where
  pub id : ℕ
  pub state : Str
  pub current_token : Str
  pub started_at : Time

-- The map by worker IDs, in the order of the IDs that were set first.
abbrev pub Monitor : Type 0
Monitor = List WorkerSnapshot

unfoldable pub set : WorkerSnapshot → Monitor → Monitor
set snapshot [] = snapshot ∷ []
set snapshot (s ∷ ss) =
    let rest = set snapshot ss in if s.id == snapshot.id then snapshot ∷ ss else s ∷ rest

unfoldable pub find_worker : ℕ → Monitor → Option WorkerSnapshot
find_worker id [] = none
find_worker id (s ∷ ss) = if s.id == id then some s else find_worker id ss

-- The workers with the IDs from `first` on, as many as there are.
starting_from : ℕ → ℕ → Monitor
starting_from first zero = []
starting_from first (suc n) =
    record { id = first; state = lit "starting"; current_token = []; started_at = 0 }
    ∷ starting_from (suc first) n

unfoldable pub new_monitor : ℕ → Monitor
unfolding starting_from
new_monitor count = starting_from 1 count

abbrev pub idle : ℕ → WorkerSnapshot
idle id = record { id = id; state = lit "idle"; current_token = []; started_at = 0 }

abbrev pub processing : ℕ → Str → Time → WorkerSnapshot
processing id token at = record {
  id = id;
  state = lit "processing";
  current_token = token;
  started_at = at;
}

abbrev pub stopped : ℕ → WorkerSnapshot
stopped id = record { id = id; state = lit "stopped"; current_token = []; started_at = 0 }

-- State, the public view of one worker.
pub record WorkerState : Type 0 where
  pub id : ℕ
  pub state : Str
  pub current_token : Option Str
  pub started_at : Option Time
  pub running_ms : Option ℤ

-- `now.Sub(startedAt).Milliseconds()`, which is at most the longest Duration, and at least 0.
unfoldable pub running_ms : Time → Time → ℤ
running_ms now started_at = pos (min (now - started_at) (2 ^ 63 - 1) / 1000000)

unfoldable pub public_state : Time → WorkerSnapshot → WorkerState
unfolding running_ms
public_state now s = record {
  id = s.id;
  state = s.state;
  current_token = if is_empty s.current_token then none else some s.current_token;
  started_at = if s.started_at == 0 then none else some s.started_at;
  running_ms = if s.started_at == 0 then none else some (running_ms now s.started_at);
}

-- The order of sort.Ints on the keys.
unfoldable pub insert_worker : WorkerSnapshot → Monitor → Monitor
insert_worker s [] = s ∷ []
insert_worker s (t ∷ ts) =
    let rest = insert_worker s ts in if leb s.id t.id then s ∷ t ∷ ts else t ∷ rest

unfoldable pub sort_workers : Monitor → Monitor
unfolding insert_worker
sort_workers [] = []
sort_workers (s ∷ ss) = insert_worker s (sort_workers ss)

unfoldable pub snapshot : Time → Monitor → List WorkerState
unfolding sort_workers public_state
snapshot now m = map (public_state now) (sort_workers m)
