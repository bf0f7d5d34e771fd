-- ===== src/Execution/Judge/Laws.antt =====
-- The verdicts of internal/execution/engine.go: runs that pass, and the statuses of those that do not.
use batasd.Status.{terminal, valid}
use batasd.Common.{true, if◌then◌else◌}
use batasd.Common.{Bool, false, Option, none, some, ◌≡◌, ◌↔◌, ◌⊎◌, refl, arith}
use batasd.Common.Int.{ℤ, pos, negsuc}
use batasd.Common.Str.{str_eq, Str, str_eq_iff, trim_right}
use batasd.Sandbox.{SandboxResult}
use batasd.Execution.Judge.{
  Error, compile_verdict, sandbox_failure, Verdict, is_failure, run_verdict, mismatches,
}

-- The output is what was asked for, trailing white space aside.
abbrev pub IsExpected : Option Str → Str → Type 0
IsExpected none stdout = Unit
IsExpected (some expected) stdout = trim_right stdout ≡ trim_right expected

pub record IsPass (expected : Option Str) (r : SandboxResult) : Type 0 where
  pub output_fits : r.output_limit ≡ false
  pub in_time : r.timed_out ≡ false
  pub in_memory : r.memory_limit ≡ false
  pub sound : r.failure ≡ none
  pub exits : (r.exit_code ≡ none) ⊎ (r.exit_code ≡ some (pos 0))
  pub answers : IsExpected expected r.stdout

mismatches-eq-false_iff :
    (expected : Option Str) (stdout : Str)
    → (mismatches expected stdout ≡ false) ↔ IsExpected expected stdout
unfolding mismatches
mismatches-eq-false_iff none stdout = ((λ _. tt), λ _. refl)
mismatches-eq-false_iff (some expected) stdout =
    ground (arith, str_eq_iff (trim_right stdout) (trim_right expected))

is_failure-eq-false_iff :
    (code : Option ℤ) → (is_failure code ≡ false) ↔ ((code ≡ none) ⊎ (code ≡ some (pos 0)))
is_failure-eq-false_iff none = ground arith
is_failure-eq-false_iff (some (pos n)) = ground arith
is_failure-eq-false_iff (some (negsuc n)) = ground arith

-- A run is passed over to the next exactly when it kept its limits, the sandbox did not fail, its
-- exit code is 0 or missing, and its output is the expected one up to trailing white space.
pub run_verdict-eq-none_iff :
    (expected : Option Str) (r : SandboxResult)
    → (run_verdict expected r ≡ none) ↔ IsPass expected r
unfolding run_verdict
run_verdict-eq-none_iff expected r =
    let same = mismatches-eq-false_iff expected r.stdout in
    let exits = is_failure-eq-false_iff r.exit_code in ground (arith, same, exits)

-- A status that ends a submission and is one of the public ones.
abbrev pub IsFinal : Str → Type 0
IsFinal code = (terminal code ≡ true) × (valid code ≡ true)

abbrev pub IsFinalVerdict : Option Verdict → Type 0
IsFinalVerdict none = Unit
IsFinalVerdict (some v) = IsFinal v.status_code

if-IsFinalVerdict :
    (test : Bool) (v : Verdict) (rest : Option Verdict)
    → IsFinal v.status_code
    → IsFinalVerdict rest
    → IsFinalVerdict (if test then some v else rest)
if-IsFinalVerdict true v rest f r = f
if-IsFinalVerdict false v rest f r = r

sandbox_failure-IsFinalVerdict :
    (e : Option Error) (rest : Option Verdict)
    → IsFinalVerdict rest
    → IsFinalVerdict (sandbox_failure e rest)
unfolding sandbox_failure terminal valid str_eq
sandbox_failure-IsFinalVerdict none rest r = r
sandbox_failure-IsFinalVerdict (some e) rest r = (refl, refl)

pub compile_verdict-IsFinalVerdict : (r : SandboxResult) → IsFinalVerdict (compile_verdict r)
unfolding compile_verdict terminal valid str_eq
compile_verdict-IsFinalVerdict r =
    if-IsFinalVerdict r.output_limit _ _ (refl, refl)
      (if-IsFinalVerdict r.timed_out _ _ (refl, refl)
        (if-IsFinalVerdict r.memory_limit _ _ (refl, refl)
          (sandbox_failure-IsFinalVerdict r.failure _
            (if-IsFinalVerdict (is_failure r.exit_code) _ none (refl, refl) tt))))

pub run_verdict-IsFinalVerdict :
    (expected : Option Str) (r : SandboxResult) → IsFinalVerdict (run_verdict expected r)
unfolding run_verdict terminal valid str_eq
run_verdict-IsFinalVerdict expected r =
    if-IsFinalVerdict r.output_limit _ _ (refl, refl)
      (if-IsFinalVerdict r.timed_out _ _ (refl, refl)
        (if-IsFinalVerdict r.memory_limit _ _ (refl, refl)
          (sandbox_failure-IsFinalVerdict r.failure _ (
            if-IsFinalVerdict (is_failure r.exit_code) _ _ (refl, refl)
              (if-IsFinalVerdict (mismatches expected r.stdout) _ none (refl, refl) tt)))))
