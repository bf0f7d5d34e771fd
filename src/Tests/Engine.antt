-- ===== src/Tests/Engine.antt =====
-- The engine on the test machine.
use batasd.Execution.Judge.{mismatches}
use batasd.Common.Errors.{fail_if}
use batasd.Common.{[], Option, some, ◌≡◌, ◌⊎◌, refl}
use batasd.Common.Str.{Str, lit, str_eq}
use batasd.Execution.Aggregate.{zero_aggregate, aggregate_result, add_all}
use batasd.Execution.Judge.Laws.{IsFinal}
use batasd.Execution.Engine.{finished, run_rounds, run}
use batasd.Execution.Engine.Loop.{runs_of, world_after, AllPass, FirstFailure, run_rounds_cases}
use batasd.Execution.Engine.Outcome.{run-IsFinal}
use batasd.Language.{Runtime}
use batasd.Tests.Fixtures.{machine, command, runtime, submission}

run_rounds_cases_example :
    (AllPass machine command (some (lit "hi")) 2 []
      × (run_rounds machine 2 command (some (lit "hi")) zero_aggregate [] ≡ (
        finished (aggregate_result (add_all zero_aggregate (runs_of machine command 2 []))),
        world_after machine command 2 [],
      )))
    ⊎ FirstFailure machine command
        (some (lit "hi"))
        2
        []
        (run_rounds machine 2 command (some (lit "hi")) zero_aggregate [])
run_rounds_cases_example = run_rounds_cases machine command (some (lit "hi")) 2 zero_aggregate []

abbrev languages : Str → Str → Option Runtime
languages slug version = some runtime

run_test : (run machine (lit "/w") languages submission []).0.status_code ≡ lit "accepted"
unfolding run fail_if mismatches str_eq
run_test = refl

run-IsFinal_example : IsFinal (run machine (lit "/w") languages submission []).0.status_code
run-IsFinal_example = run-IsFinal machine (lit "/w") languages submission []
