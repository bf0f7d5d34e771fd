-- ===== src/Tests/Judging.antt =====
-- Verdicts and aggregates on concrete results.
use batasd.Common.Int.{add_int64}
use batasd.Common.Int.{quot_ℤ}
use batasd.Common.Str.{str_eq}
use batasd.Execution.Judge.{mismatches}
use batasd.Common.{◌≤◌, [], ◌∷◌, none, some, ◌≡◌, ◌↔◌, refl, arith, All, length}
use batasd.Common.Int.{pos}
use batasd.Common.Str.{Str, lit, trim_right}
use batasd.Common.Errors.{ok}
use batasd.Execution.Judge.{run_verdict}
use batasd.Execution.Judge.Laws.{IsPass, run_verdict-eq-none_iff}
use batasd.Execution.Tokens.{validate_tokens, IsToken, validate_tokens_iff}
use batasd.Execution.Aggregate.{add_all, aggregate_result, zero_aggregate}
use batasd.Execution.Aggregate.Laws.{TookBetween, aggregate_result-TookBetween}
use batasd.Status.{wrong_answer}
use batasd.Tests.Fixtures.{passing, slower}

wrong_answer_test :
    run_verdict (some (lit "ho")) passing
    ≡ some (record {
      status_code = wrong_answer;
      message = lit "output did not match expected output";
    })
unfolding run_verdict mismatches str_eq trim_right
wrong_answer_test = refl

run_verdict-eq-none_iff_example :
    (run_verdict (some (lit "hi")) passing ≡ none) ↔ IsPass (some (lit "hi")) passing
run_verdict-eq-none_iff_example = run_verdict-eq-none_iff (some (lit "hi")) passing

validate_tokens_iff_example :
    (validate_tokens (lit "arguments") (lit "-O2" ∷ []) ≡ ok tt)
    ↔ ((length {A = Str} (lit "-O2" ∷ []) ≤ 64) × All IsToken (lit "-O2" ∷ []))
validate_tokens_iff_example = validate_tokens_iff (lit "arguments") (lit "-O2" ∷ [])

average_test : (aggregate_result (add_all zero_aggregate (passing ∷ slower ∷ []))).time_ms ≡ pos 11
unfolding aggregate_result add_all quot_ℤ add_int64
average_test = refl

aggregate_result-TookBetween_example :
    TookBetween 10 20 (aggregate_result (add_all zero_aggregate (passing ∷ slower ∷ [])))
aggregate_result-TookBetween_example =
    aggregate_result-TookBetween 10 20 passing (slower ∷ [])
      ((10, refl, omega arith, omega arith), ((13, refl, omega arith, omega arith), tt))
      (omega arith)
