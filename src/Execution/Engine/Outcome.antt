-- ===== src/Execution/Engine/Outcome.antt =====
-- The status that Engine.Run of internal/execution/engine.go ends in.
use batasd.Common.{
  subst, ℕ, zero, suc, List, [], ◌∷◌, ◌++◌, Option, none, some, ◌≡◌, inl, inr, refl, Option-cases,
}
use batasd.Common.Str.{Str, lit, str_eq}
use batasd.Common.Errors.{Result, ok, err}
use batasd.Submission.Model.{Time, Submission, SubmissionResult}
use batasd.Sandbox.{Command, SandboxResult}
use batasd.Language.{Runtime}
use batasd.Status.{internal_error, sandbox_error, accepted, terminal, valid}
use batasd.Execution.Tokens.{validate_tokens, append_args}
use batasd.Execution.Aggregate.{add, run_count, Aggregate, zero_aggregate}
use batasd.Execution.Machine.{Machine}
use batasd.Execution.Judge.{Verdict, result, from_sandbox, compile_verdict, run_verdict}
use batasd.Execution.Judge.Laws.{
  IsFinal, IsFinalVerdict, compile_verdict-IsFinalVerdict, run_verdict-IsFinalVerdict,
}
use batasd.Execution.Engine.{
  join_path, Finish, finished, failed, report, failed_with, run_rounds, run_submission, close,
  run_program, after_compile, build_and_run, or_report, place_files, in_directory, then_remove,
  make_directory, checked_tokens, resolved, run,
}

accepted-IsFinal : IsFinal accepted
unfolding terminal valid str_eq
accepted-IsFinal = (refl, refl)

sandbox_error-IsFinal : IsFinal sandbox_error
unfolding terminal valid str_eq
sandbox_error-IsFinal = (refl, refl)

internal_error-IsFinal : IsFinal internal_error
unfolding terminal valid str_eq
internal_error-IsFinal = (refl, refl)

some-IsFinal :
    {o : Option Verdict} {v : Verdict} → o ≡ some v → IsFinalVerdict o → IsFinal v.status_code
some-IsFinal e f = subst IsFinalVerdict e f

abbrev EndsFinal : Finish → Type 0
EndsFinal (failed r) = IsFinal r.status_code
EndsFinal (finished run) = Unit

module _ {W : Type 0} (m : Machine W) where
  record HasFinal (r : SubmissionResult × W) : Type 0 where
    ends : IsFinal r.0.status_code

  abbrev FinishHasFinal : Finish × W → Type 0
  FinishHasFinal r = EndsFinal r.0

  run_rounds-final :
      (n : ℕ) (command : Command) (expected : Option Str) (a : Aggregate) (w : W)
      → FinishHasFinal (run_rounds m n command expected a w)
  unfolding run_rounds failed_with report from_sandbox
  run_rounds-final zero command expected a w = tt
  run_rounds-final (suc n) command expected a w =
      elim (Option-cases (run_verdict expected (m.runner command w).0)) [
        | inl e ↦
            rw (e, run_rounds)
              (run_rounds-final n command expected (add a (m.runner command w).0)
                (m.runner command w).1)
        | inr (v, e) ↦
            rw (e, run_rounds)
              (some-IsFinal e (run_verdict-IsFinalVerdict expected (m.runner command w).0))
      ]

  close-final : (f : Finish × W) → FinishHasFinal f → HasFinal (close m f)
  unfolding close report from_sandbox
  close-final (failed r, w) f = record { ends = f }
  close-final (finished run, w) f = record { ends = accepted-IsFinal }

  run_program-final :
      (lang : Runtime) (sub : Submission) (dir : Str) (w : W)
      → HasFinal (run_program m lang sub dir w)
  unfolding run_program run_submission
  run_program-final lang sub dir w =
      close-final (run_submission m lang sub dir w)
        (run_rounds-final (run_count sub.limits) _ sub.expected_output zero_aggregate w)

  after_compile-final :
      (lang : Runtime) (sub : Submission) (dir : Str) (c : SandboxResult × W)
      → HasFinal (after_compile m lang sub dir c)
  unfolding after_compile report from_sandbox
  after_compile-final lang sub dir (r, w) = elim (Option-cases (compile_verdict r)) [
    | inl e ↦ rw (e, after_compile) (run_program-final lang sub dir w)
    | inr (v, e) ↦
        rw (e, after_compile) (record { ends = some-IsFinal e (compile_verdict-IsFinalVerdict r) })
  ]

  build_and_run-final :
      (words : List Str) (lang : Runtime) (sub : Submission) (dir : Str) (w : W)
      → HasFinal (build_and_run m words lang sub dir w)
  unfolding build_and_run
  build_and_run-final [] lang sub dir w = run_program-final lang sub dir w
  build_and_run-final (word ∷ words) lang sub dir w = after_compile-final lang sub dir (
      m.runner
        (record {
          args = append_args (word ∷ words) sub.compiler_options;
          dir = dir;
          input = [];
          limits = sub.limits;
        })
        w)

  or_report-final :
      {A : Type 0} (code : Str) (at : Time) (next : A → W → SubmissionResult × W) (r : Result A × W)
      → IsFinal code
      → ((a : A) (w : W) → HasFinal (next a w))
      → HasFinal (or_report m code at next r)
  unfolding or_report result
  or_report-final code at next (ok a, w) f h = h a w
  or_report-final code at next (err e, w) f h = record { ends = f }

  in_directory-final :
      (at : Time) (lang : Runtime) (sub : Submission) (dir : Str) (w : W)
      → HasFinal (in_directory m at lang sub dir w)
  unfolding in_directory
  in_directory-final at lang sub dir w =
      or_report-final {A = Unit} _ at _ (m.chmod dir 0o777 w) sandbox_error-IsFinal λ _ w1.
        or_report-final {A = Unit} _ at _
          (m.write_file (join_path dir lang.source_file) sub.source 0o644 w1) sandbox_error-IsFinal
          λ _ w2.
            or_report-final {A = ℕ} _ at _ (place_files m sub.additional_files dir w2)
              sandbox_error-IsFinal λ _ w3. build_and_run-final lang.compile lang sub dir w3

  then_remove-final :
      (dir : Str) (r : SubmissionResult × W) → HasFinal r → HasFinal (then_remove m dir r)
  unfolding then_remove
  then_remove-final dir (r, w) f = record { ends = f.ends }

  module _ (work_dir : Str) where
    make_directory-final :
        (at : Time) (lang : Runtime) (sub : Submission) (w : W)
        → HasFinal (make_directory m work_dir at lang sub w)
    unfolding make_directory
    make_directory-final at lang sub w =
        or_report-final {A = Unit} _ at _ (m.mkdir_all work_dir 0o700 w) sandbox_error-IsFinal
          λ _ w1.
            or_report-final {A = Str} _ at _
              (m.mkdir_temp work_dir (lit "sub-" ++ (sub.token ++ lit "-")) w1)
              sandbox_error-IsFinal
              λ dir w2. then_remove-final dir _ (in_directory-final at lang sub dir w2)

    checked_tokens-final :
        (at : Time) (lang : Runtime) (sub : Submission) (w : W)
        → HasFinal (checked_tokens m work_dir at lang sub w)
    unfolding checked_tokens
    checked_tokens-final at lang sub w =
        or_report-final {A = Unit} _ at _ (validate_tokens (lit "arguments") sub.arguments, w)
          internal_error-IsFinal
          λ _ w1.
            or_report-final {A = Unit} _ at _
              (validate_tokens (lit "compiler_options") sub.compiler_options, w1)
              internal_error-IsFinal λ _ w2. make_directory-final at lang sub w2

    resolved-final :
        (at : Time) (lang : Option Runtime) (sub : Submission) (w : W)
        → HasFinal (resolved m work_dir at lang sub w)
    unfolding resolved result
    resolved-final at none sub w = record { ends = internal_error-IsFinal }
    resolved-final at (some lang) sub w = checked_tokens-final at lang sub w

    -- Whatever the machine does, a run of the engine ends in a status that is terminal and public, so
    -- a submission that it judged is never queued or processing.
    pub run-IsFinal :
        (languages : Str → Str → Option Runtime) (sub : Submission) (w : W)
        → IsFinal (run m work_dir languages sub w).0.status_code
    unfolding run
    run-IsFinal languages sub w =
        (resolved-final (m.now w).0 (languages sub.language sub.language_version) sub
          (m.now w).1).ends
