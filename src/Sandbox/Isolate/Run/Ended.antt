-- ===== src/Sandbox/Isolate/Run/Ended.antt =====
-- What Run of internal/sandbox/isolate/isolate.go reports of a process that ended.
use batasd.Common.{
  Bool, true, false, ◌&&◌, ◌||◌, not, Option, none, some, if◌then◌else◌, is_some, ◌≡◌, refl, ap,
  ◌∙◌, arith, Bool-cases, inl, inr,
}
use batasd.Common.Int.{ℤ, pos}
use batasd.Common.Str.{Str, lit, str_eq, str_eq_iff}
use batasd.Common.Errors.{Error}
use batasd.Submission.Model.{Limits}
use batasd.Sandbox.{SandboxResult}
use batasd.Sandbox.Process.{Ending, WaitError, exited, broken, captured}
use batasd.Sandbox.Isolate.Meta.{
  Meta, Floats, MetaRead, values, not_there, failed, value_of, apply_meta, apply_status,
  apply_memory_flag, apply_message, apply_signal, apply_numbers, with_default_message,
  with_default_code, with_message_as_failure,
}
use batasd.Sandbox.Isolate.Run.{is_one, with_code, with_exit, with_wait, with_end, classify}

-- The result says how the run ended.
abbrev pub is_conclusive : SandboxResult → Bool
is_conclusive r =
    is_some r.failure || (r.timed_out || (is_some r.exit_code || is_some r.exit_signal))

with_code-is_conclusive : (code : ℤ) (r : SandboxResult) → is_conclusive (with_code code r) ≡ true
unfolding with_code
with_code-is_conclusive code r = ground arith

with_wait-is_conclusive :
    (wait_error : Option WaitError) (r : SandboxResult)
    → is_conclusive (with_wait wait_error r) ≡ true
unfolding with_wait with_exit
with_wait-is_conclusive none r = with_code-is_conclusive (pos 0) r
with_wait-is_conclusive (some (exited code signal)) r = elim (Bool-cases (is_one code)) [
  | inl one ↦ rw one (with_code-is_conclusive code r)
  | inr more ↦ rw more refl
]
with_wait-is_conclusive (some (broken e)) r = refl

with_end-is_conclusive :
    (past : Bool) (meta_error : Option Error) (wait_error : Option WaitError) (r : SandboxResult)
    → is_conclusive (with_end past meta_error wait_error r) ≡ true
unfolding with_end with_default_message
with_end-is_conclusive true meta_error wait_error r = ground arith
with_end-is_conclusive false (some e) wait_error r = refl
with_end-is_conclusive false none wait_error r = with_wait-is_conclusive wait_error r

-- Whether the wait ended with an error other than the exit code that stands for a failed program.
abbrev pub is_broken : Option WaitError → Bool
is_broken none = false
is_broken (some (exited code signal)) = not (is_one code)
is_broken (some (broken e)) = true

-- Whether isolate says that it failed itself.
abbrev pub is_internal : MetaRead → Bool
is_internal (values m) = str_eq (value_of (lit "status") m) (lit "XX")
is_internal not_there = false
is_internal (failed e) = false

abbrev pub is_unreadable : MetaRead → Bool
is_unreadable (values m) = false
is_unreadable not_there = false
is_unreadable (failed e) = true

with_wait-failure :
    (wait_error : Option WaitError) (r : SandboxResult)
    → is_some (with_wait wait_error r).failure ≡ (is_some r.failure || is_broken wait_error)
unfolding with_wait with_exit with_code
with_wait-failure none r = ground arith
with_wait-failure (some (exited code signal)) r = ground arith
with_wait-failure (some (broken e)) r = ground arith

with_end-failure :
    (past : Bool) (meta_error : Option Error) (wait_error : Option WaitError) (r : SandboxResult)
    → is_some (with_end past meta_error wait_error r).failure
      ≡ (is_some r.failure || (not past && (is_some meta_error || is_broken wait_error)))
unfolding with_end with_default_message
with_end-failure true meta_error wait_error r = ground arith
with_end-failure false (some e) wait_error r = ground arith
with_end-failure false none wait_error r = ground (arith, with_wait-failure wait_error r)

apply_status-failure :
    (status : Str) (r : SandboxResult)
    → is_some (apply_status status r).failure ≡ (is_some r.failure || str_eq status (lit "XX"))
unfolding apply_status with_default_message with_default_code with_message_as_failure
apply_status-failure status r = elim (Bool-cases (str_eq status (lit "TO"))) [
  | inl timed ↦ rw ((str_eq_iff status (lit "TO")).0 timed, str_eq) (ground arith)
  | inr other_status ↦ elim (Bool-cases (str_eq status (lit "XX"))) [
    | inl internal ↦ rw (other_status, internal) (ground arith)
    | inr third ↦ rw (other_status, third) (ground arith)
  ]
]

either-failure :
    (test : Bool) (x y : SandboxResult) {f : Option Error}
    → x.failure ≡ f
    → y.failure ≡ f
    → (if test then x else y).failure ≡ f
either-failure true x y h k = h
either-failure false x y h k = k

-- What stands before the status leaves the failure as it was.
module _ (m : Meta) (r : SandboxResult) where
  apply_signal-failure : (apply_signal m r).failure ≡ r.failure
  unfolding apply_signal with_default_code
  apply_signal-failure = either-failure _ _ _ refl refl

  apply_message-failure : (apply_message m r).failure ≡ r.failure
  unfolding apply_message
  apply_message-failure = either-failure _ _ _ refl refl

  apply_memory_flag-failure : (apply_memory_flag m r).failure ≡ r.failure
  unfolding apply_memory_flag with_default_message
  apply_memory_flag-failure = either-failure _ _ _ refl refl

apply_meta-failure :
    (floats : Floats) (m : Meta) (r : SandboxResult)
    → is_some (apply_meta floats m r).failure
      ≡ (is_some r.failure || str_eq (value_of (lit "status") m) (lit "XX"))
unfolding apply_meta apply_numbers
apply_meta-failure floats m r =
    let numbers = apply_numbers floats m r in
    let signal = apply_signal m numbers in
    let message = apply_message m signal in
    apply_status-failure (value_of (lit "status") m) (apply_memory_flag m message)
    ∙ ap (λ f. is_some f || str_eq (value_of (lit "status") m) (lit "XX"))
        (apply_memory_flag-failure m message
          ∙ (apply_message-failure m signal ∙ apply_signal-failure m numbers))

-- A finished run of isolate is reported as a failure of the sandbox exactly when isolate says in the
-- meta file that it failed, or when, within the deadline, the meta file cannot be read or the process
-- ends with an error other than exit code 1. Whatever happened, the result says how the run ended:
-- by a failure, by a time limit, with an exit code or by a signal.
pub classify-failure :
    (floats : Floats) (limits : Limits) (ending : Ending) (read : MetaRead)
    → let r = classify floats limits ending read in
      (is_some r.failure ≡ (
        is_internal read
        || (not ending.past_deadline && (is_unreadable read || is_broken ending.wait_error))))
      × (is_conclusive r ≡ true)
unfolding classify captured
classify-failure floats limits ending (values m) = (
  with_end-failure ending.past_deadline none ending.wait_error _
      ∙ ap (λ b. b || (not ending.past_deadline && is_broken ending.wait_error))
          (apply_meta-failure floats m (captured limits ending)),
  with_end-is_conclusive ending.past_deadline none ending.wait_error _,
)
classify-failure floats limits ending not_there = (
  with_end-failure ending.past_deadline none ending.wait_error _,
  with_end-is_conclusive ending.past_deadline none ending.wait_error _,
)
classify-failure floats limits ending (failed e) = (
  with_end-failure ending.past_deadline (some e) ending.wait_error _,
  with_end-is_conclusive ending.past_deadline (some e) ending.wait_error _,
)
