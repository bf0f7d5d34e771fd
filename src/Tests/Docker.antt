-- ===== src/Tests/Docker.antt =====
-- The docker driver on a host that answers every call, and the arguments of both drivers.
use batasd.Common.{
  ℕ, ◌+◌, true, false, List, [], ◌∷◌, ◌++◌, none, some, ◌≡◌, refl, arith, if◌then◌else◌,
}
use batasd.Common.Int.{pos}
use batasd.Common.Str.{lit}
use batasd.Common.Errors.{ok}
use batasd.Sandbox.Process.{Host, Ending, bytes}
use batasd.Sandbox.Watched.{Event, watched}
use batasd.Sandbox.Docker.{Runner, container_name, docker_args, docker_oom_killed, run}
use batasd.Sandbox.Docker.Removed.{Story, run-Removed}
use batasd.Sandbox.Isolate.Args.{run_options, run_args, milliseconds_as_seconds, format_thousandths}
use batasd.Sandbox.Isolate.Args.Exact.{milliseconds_as_seconds-exact}
use batasd.Sandbox.Network.{is_set, share_net}
use batasd.Sandbox.Network.Asked.{network, value_behind, options, network_asked}
use batasd.Tests.Fixtures.{limits, command}

abbrev ending : Ending
ending = record {
  stdout_writes = lit "hi" ∷ [];
  stderr_writes = [];
  wait_error = none;
  elapsed_ms = pos 5;
  past_deadline = false;
}

abbrev host : Host ℕ
host = record {
  abs = λ path n. (ok path, n);
  look_path = λ program n. (ok program, n);
  random_bytes = λ count n. (ok (1 ∷ 171 ∷ []), n);
  create_temp = λ pattern n. (ok (lit "/tmp/meta"), n);
  remove = λ path n. n;
  read_file = λ path n. bytes [] none;
  call = λ s n. (record { output = lit "True\n"; combined = []; failure = none }, n + 1);
  spawn = λ s n. (ok ending, n + 1);
}

abbrev runner : Runner
runner = record { binary = lit "docker"; image = lit "batasd-runner:local" }

container_name_test : container_name (1 ∷ 171 ∷ []) ≡ lit "batasd-01ab"
unfolding container_name
container_name_test = refl

oom_test : docker_oom_killed (lit " True\n") ≡ true
unfolding docker_oom_killed
oom_test = refl

run-Removed_example :
    (events : List Event) × Story (lit "batasd-runner:local") events
    × ((run (watched host) runner command (0, [])).1.1 ≡ events ++ [])
run-Removed_example = run-Removed host runner command 0 []

milliseconds_as_seconds-exact_example :
    milliseconds_as_seconds (pos 15001) ≡ format_thousandths 15001
milliseconds_as_seconds-exact_example = milliseconds_as_seconds-exact 15001 (omega arith)

network_asked_example :
    (run_args false 2 (lit "/w") (lit "/m") command
      ≡ run_options false 2 (lit "/w") (lit "/m") limits ++ (lit "--run" ∷ lit "--" ∷ command.args))
    × (is_set share_net (run_options false 2 (lit "/w") (lit "/m") limits) ≡ false)
    × (docker_args (lit "img") (container_name (lit "x")) (lit "/w") command
        ≡ options (container_name (lit "x")) (lit "/w") limits ++ (lit "img" ∷ command.args))
    × (value_behind network (options (container_name (lit "x")) (lit "/w") limits)
        ≡ (if false then none else some (lit "none")))
network_asked_example = network_asked false 2 (lit "img") (lit "x") (lit "w") (lit "m") command
