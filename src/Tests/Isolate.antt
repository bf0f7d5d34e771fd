-- ===== src/Tests/Isolate.antt =====
-- The isolate driver on a host that answers every call.
use batasd.Common.{
  ℕ, true, false, ◌&&◌, ◌||◌, not, List, [], ◌∷◌, ◌++◌, none, some, is_some, reverse, All, ◌≡◌,
  refl, arith, length, ◌+◌,
}
use batasd.Common.Int.{pos, ◌<ℤ◌}
use batasd.Common.Str.{lit}
use batasd.Common.Errors.{ok}
use batasd.Sandbox.Process.{Host, Ending, exited, bytes}
use batasd.Sandbox.Isolate.Meta.{Floats, Meta, values, read_meta_file}
use batasd.Sandbox.Isolate.Meta.RoundTrip.{IsEntry, print_meta, read_meta_file-print_meta}
use batasd.Sandbox.Isolate.Run.{Runner, classify, run}
use batasd.Sandbox.Isolate.Run.Ended.{
  is_conclusive, is_internal, is_unreadable, is_broken, classify-failure,
}
use batasd.Sandbox.Watched.{Event}
use batasd.Sandbox.Isolate.Run.Watched.{watched_host, watched_runner, Story}
use batasd.Sandbox.Isolate.Run.Story.{run-Story}
use batasd.Sandbox.Isolate.Pool.{Step, Channel, Pool, Reachable, new_pool, receive, send}
use batasd.Sandbox.Isolate.Pool.Shared.{IsShared, Reachable-IsShared}
use batasd.Sandbox.Isolate.Pool.Ready.{isolate_pool-ready}
use batasd.Tests.Fixtures.{limits, command}
use batasd.Tests.Config.{config, quote, valid}

-- Readings are not parsed as seconds.
abbrev floats : Floats
floats = record { Float = ℕ; parse_float = λ s. none; to_ms = λ n. pos n }

abbrev meta : Meta
meta = (lit "status", lit "RE") ∷ (lit "exitcode", lit "3") ∷ (lit "message", lit "a:b") ∷ []

meta_entries : All IsEntry meta
meta_entries = (status_entry, (code_entry, (message_entry, tt)))
  where
    status_entry : IsEntry (lit "status", lit "RE")
    status_entry = record {
      key_colon = ground arith;
      key_line = ground arith;
      value_line = ground arith;
      no_return = ground arith;
      short = omega arith;
    }

    code_entry : IsEntry (lit "exitcode", lit "3")
    code_entry = record {
      key_colon = ground arith;
      key_line = ground arith;
      value_line = ground arith;
      no_return = ground arith;
      short = omega arith;
    }

    message_entry : IsEntry (lit "message", lit "a:b")
    message_entry = record {
      key_colon = ground arith;
      key_line = ground arith;
      value_line = ground arith;
      no_return = ground arith;
      short = omega arith;
    }

read_meta_file-print_meta_example :
    read_meta_file (bytes (print_meta meta) none) ≡ values (reverse meta)
read_meta_file-print_meta_example = read_meta_file-print_meta meta meta_entries

abbrev ending : Ending
ending = record {
  stdout_writes = lit "hi" ∷ [];
  stderr_writes = [];
  wait_error = some (exited (pos 1) none);
  elapsed_ms = pos 5;
  past_deadline = false;
}

exit_code_test : (classify floats limits ending (values meta)).exit_code ≡ some (pos 3)
unfolding classify
exit_code_test = refl

classify-failure_example :
    (is_some (classify floats limits ending (values meta)).failure ≡ (
      is_internal (values meta)
      || (not ending.past_deadline
          && (is_unreadable (values meta) || is_broken ending.wait_error))))
    × (is_conclusive (classify floats limits ending (values meta)) ≡ true)
classify-failure_example = classify-failure floats limits ending (values meta)

-- The world is the number of calls.
abbrev host : Host ℕ
host = record {
  abs = λ path n. (ok path, n);
  look_path = λ program n. (ok (lit "/bin/" ++ program), n);
  random_bytes = λ count n. (ok [], n);
  create_temp = λ pattern n. (ok (lit "/tmp/meta"), n);
  remove = λ path n. n;
  read_file = λ path n. bytes (print_meta meta) none;
  call = λ s n. (record { output = []; combined = []; failure = none }, n + 1);
  spawn = λ s n. (ok ending, n + 1);
}

abbrev runner : Runner ℕ
runner = record {
  binary = lit "isolate";
  use_cg = false;
  boxes = some (record { receive = λ n. (ok 2, n); send = λ box n. n });
}

run-Story_example :
    (events : List Event) × Story false events
    × ((run floats (watched_host host) (watched_runner runner) command (0, [])).1.1 ≡ events ++ [])
run-Story_example = run-Story floats host runner command 0 []

-- One of four boxes is held.
abbrev pool : Pool
pool = record { channel = record { free = 1 ∷ 2 ∷ 3 ∷ []; capacity = 4 }; held = 0 ∷ [] }

pool-Reachable : Reachable 0 4 pool
unfolding new_pool receive
pool-Reachable = Reachable.steps (new_pool 0 4) pool Reachable.begins (Step.acquires 0 _ refl)

Reachable-IsShared_example : IsShared 0 4 pool
Reachable-IsShared_example = Reachable-IsShared 0 4 pool pool-Reachable

isolate_pool-ready_example :
    (pos (length pool.held) <ℤ config.queue.workers
      → (box : ℕ) × (rest : Channel) × (receive pool.channel ≡ some (box, rest)))
    × ((box : ℕ) (before after : List ℕ)
        → pool.held ≡ before ++ (box ∷ after)
        → (rest : Channel) × (send box pool.channel ≡ some rest))
isolate_pool-ready_example = isolate_pool-ready quote config 0 4 pool valid refl refl pool-Reachable
