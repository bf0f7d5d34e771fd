-- ===== src/Execution/Engine/Loop.antt =====
-- The repeated runs of a submission, in internal/execution/engine.go.
use batasd.Common.{
  ℕ, zero, suc, ◌<◌, List, [], ◌∷◌, Option, some, ◌≡◌, ◌⊎◌, inl, inr, refl, arith, Option-cases,
}
use batasd.Common.Str.{Str}
use batasd.Sandbox.{Command, SandboxResult}
use batasd.Execution.Aggregate.{Aggregate, add, add_all, aggregate_result}
use batasd.Execution.Machine.{Machine}
use batasd.Execution.Judge.{Verdict, run_verdict}
use batasd.Execution.Judge.Laws.{IsPass, run_verdict-eq-none_iff}
use batasd.Execution.Engine.{Finish, finished, failed_with, run_rounds}

module _ {W : Type 0} (m : Machine W) (command : Command) where
  -- The results of n runs, one after the other, and the world behind them.
  abbrev pub runs_of : ℕ → W → List SandboxResult
  runs_of zero w = []
  runs_of (suc n) w = (m.runner command w).0 ∷ runs_of n (m.runner command w).1

  abbrev pub world_after : ℕ → W → W
  world_after zero w = w
  world_after (suc n) w = world_after n (m.runner command w).1

  abbrev pub AllPass : Option Str → ℕ → W → Type 0
  AllPass expected zero w = Unit
  AllPass expected (suc n) w =
      IsPass expected (m.runner command w).0 × AllPass expected n (m.runner command w).1

  -- The first of n runs that does not pass, and what is reported for it.
  pub record FirstFailure (expected : Option Str) (n : ℕ) (w : W) (outcome : Finish × W)
      : Type 0 where
    pub index : ℕ
    pub within : index < n
    pub before : AllPass expected index w
    pub verdict : Verdict
    pub judged : run_verdict expected (m.runner command (world_after index w)).0 ≡ some verdict
    pub reported :
        outcome
        ≡ failed_with m
            (m.runner command (world_after index w)).0
            verdict
            (m.runner command (world_after index w)).1

  -- Either all n runs pass, and the loop ends with their aggregate in the world behind the last; or
  -- the loop stops behind the first run that does not pass, and reports the verdict on that run.
  pub run_rounds_cases :
      (expected : Option Str) (n : ℕ) (a : Aggregate) (w : W)
      → (AllPass expected n w
          × (run_rounds m n command expected a w
              ≡ (finished (aggregate_result (add_all a (runs_of n w))), world_after n w)))
        ⊎ FirstFailure expected n w (run_rounds m n command expected a w)
  unfolding run_rounds add_all
  run_rounds_cases expected zero a w = inl (tt, refl)
  run_rounds_cases expected (suc n) a w =
      elim (Option-cases (run_verdict expected (m.runner command w).0)) [
        | inr (v, judged) ↦ inr (record {
          index = 0;
          within = omega arith;
          before = tt;
          verdict = v;
          judged = judged;
          reported = rw (judged, run_rounds) refl;
        })
        | inl passed ↦
            let passes = (run_verdict-eq-none_iff expected (m.runner command w).0).0 passed in
            elim (run_rounds_cases expected n (add a (m.runner command w).0)
              (m.runner command w).1) [
                | inl (all, e) ↦ inl ((passes, all), rw (passed, run_rounds) e)
                | inr f ↦ inr (record {
                  index = suc f.index;
                  within = omega (arith, f.within);
                  before = (passes, f.before);
                  verdict = f.verdict;
                  judged = f.judged;
                  reported = rw (passed, run_rounds) f.reported;
                })
              ]
      ]
