-- ===== src/Execution/Engine.antt =====
-- Engine.Run of internal/execution/engine.go. Each step takes the world that the last one left, and
-- an early return is the result in place of what follows.
pub mod Loop
pub mod Outcome
use batasd.Common.{
  ℕ, zero, suc, ◌+◌, Bool, true, false, List, [], ◌∷◌, ◌++◌, Option, none, some, if◌then◌else◌,
}
use batasd.Common.Str.{Str, lit}
use batasd.Common.Errors.{Error, error_text, Result, ok, err}
use batasd.Submission.Model.{Time, AdditionalFiles, Submission, SubmissionResult}
use batasd.Sandbox.{Command, SandboxResult}
use batasd.Language.{Runtime}
use batasd.Status.{internal_error, sandbox_error, accepted}
use batasd.Execution.Tokens.{validate_tokens, append_args}
use batasd.Execution.Aggregate.{
  run_count, Aggregate, zero_aggregate, zero_result, add, aggregate_result,
}
use batasd.Execution.Machine.{Machine}
use batasd.Execution.Judge.{
  Verdict, compile_output, result, from_sandbox, compile_verdict, run_verdict,
}
use batasd.Execution.Archive.{extract_additional_files}
use batasd.Execution.Paths.{join_path}

-- What the runs of a submission end in: the result that ends it early, or the aggregate.
pub data Finish : Type 0 where
  failed : SubmissionResult → Finish
  finished : SandboxResult → Finish

module _ {W : Type 0} (m : Machine W) where
  -- fromSandbox, which reads the clock.
  unfoldable pub report : Str → SandboxResult → Option Str → Str → W → SubmissionResult × W
  unfolding from_sandbox
  report status_code run compiled message w =
      (from_sandbox (m.now w).0 status_code run compiled message, (m.now w).1)

  unfoldable pub failed_with : SandboxResult → Verdict → W → Finish × W
  unfolding report
  failed_with run v w = (
    failed (report v.status_code run none v.message w).0,
    (report v.status_code run none v.message w).1,
  )

  -- The rounds of runSubmission that are left.
  unfoldable pub run_rounds : ℕ → Command → Option Str → Aggregate → W → Finish × W
  unfolding run_verdict add aggregate_result failed_with
  run_rounds zero command expected a w = (finished (aggregate_result a), w)
  run_rounds (suc n) command expected a w = elim (run_verdict expected (m.runner command w).0) [
    | some v ↦ failed_with (m.runner command w).0 v (m.runner command w).1
    | none ↦ run_rounds n command expected (add a (m.runner command w).0) (m.runner command w).1
  ]

  unfoldable pub run_submission : Runtime → Submission → Str → W → Finish × W
  unfolding run_rounds run_count append_args
  run_submission lang sub dir w =
      run_rounds (run_count sub.limits)
        (record {
          args = append_args lang.run sub.arguments;
          dir = dir;
          input = sub.input;
          limits = sub.limits;
        })
        sub.expected_output zero_aggregate w

  close : Finish × W → SubmissionResult × W
  unfolding report
  close (failed r, w) = (r, w)
  close (finished run, w) = report accepted run none [] w

  run_program : Runtime → Submission → Str → W → SubmissionResult × W
  unfolding run_submission close
  run_program lang sub dir w = close (run_submission lang sub dir w)

  after_compile : Runtime → Submission → Str → SandboxResult × W → SubmissionResult × W
  unfolding run_program compile_verdict compile_output report
  after_compile lang sub dir (r, w) = elim (compile_verdict r) [
    | some v ↦ report v.status_code r (compile_output r) v.message w
    | none ↦ run_program lang sub dir w
  ]

  -- The compile command, if the language has one, and the runs.
  unfoldable pub build_and_run : List Str → Runtime → Submission → Str → W → SubmissionResult × W
  unfolding run_program after_compile append_args
  build_and_run [] lang sub dir w = run_program lang sub dir w
  build_and_run (word ∷ words) lang sub dir w = after_compile lang sub dir (
      m.runner
        (record {
          args = append_args (word ∷ words) sub.compiler_options;
          dir = dir;
          input = [];
          limits = sub.limits;
        })
        w)

  -- `if err != nil { return result(code, finishedAt, withMessage(err.Error())) }`.
  or_report :
      {A : Type 0}
      → Str
      → Time
      → (A → W → SubmissionResult × W)
      → Result A × W
      → SubmissionResult × W
  unfolding error_text result
  or_report status_code finished_at next (ok a, w) = next a w
  or_report status_code finished_at next (err e, w) =
      (result status_code finished_at (error_text e), w)

  place_files : Option AdditionalFiles → Str → W → Result ℕ × W
  unfolding extract_additional_files
  place_files none dir w = (ok 0, w)
  place_files (some files) dir w = extract_additional_files m dir files w

  -- What is done in the new directory, before it is removed.
  in_directory : Time → Runtime → Submission → Str → W → SubmissionResult × W
  unfolding or_report place_files build_and_run join_path
  in_directory finished_at lang sub dir w =
      or_report sandbox_error finished_at
        (λ _ w1.
          or_report sandbox_error finished_at
            (λ _ w2.
              or_report sandbox_error finished_at
                (λ _ w3. build_and_run lang.compile lang sub dir w3)
                (place_files sub.additional_files dir w2))
            (m.write_file (join_path dir lang.source_file) sub.source 0o644 w1))
        (m.chmod dir 0o777 w)

  -- `defer os.RemoveAll(dir)`.
  then_remove : Str → SubmissionResult × W → SubmissionResult × W
  then_remove dir (r, w) = (r, m.remove_all dir w)

  module _ (work_dir : Str) where
    make_directory : Time → Runtime → Submission → W → SubmissionResult × W
    unfolding or_report in_directory then_remove
    make_directory finished_at lang sub w =
        or_report sandbox_error finished_at
          (λ _ w1.
            or_report sandbox_error finished_at
              (λ dir w2. then_remove dir (in_directory finished_at lang sub dir w2))
              (m.mkdir_temp work_dir (lit "sub-" ++ (sub.token ++ lit "-")) w1))
          (m.mkdir_all work_dir 0o700 w)

    checked_tokens : Time → Runtime → Submission → W → SubmissionResult × W
    unfolding or_report make_directory validate_tokens
    checked_tokens finished_at lang sub w =
        or_report internal_error finished_at
          (λ _ w1.
            or_report internal_error finished_at (λ _ w2. make_directory finished_at lang sub w2)
              (validate_tokens (lit "compiler_options") sub.compiler_options, w1))
          (validate_tokens (lit "arguments") sub.arguments, w)

    resolved : Time → Option Runtime → Submission → W → SubmissionResult × W
    unfolding checked_tokens result
    resolved finished_at none sub w =
        (result internal_error finished_at (lit "unsupported language"), w)
    resolved finished_at (some lang) sub w = checked_tokens finished_at lang sub w

    -- The languages are the function that `Resolve` is.
    unfoldable pub run : (Str → Str → Option Runtime) → Submission → W → SubmissionResult × W
    unfolding resolved
    run languages sub w =
        resolved (m.now w).0 (languages sub.language sub.language_version) sub (m.now w).1
