-- ===== src/Common/Errors.antt =====
-- Go's error values, and the chain `if err != nil { return err }` as a monad.
use mathlib.Core.Path.{◌≡◌, refl}
use mathlib.Core.Bool.{Bool, true, false}
use mathlib.Core.List.{◌++◌}
use mathlib.Core.Option.{Option, none, some}
use package.batasd.Common.Str.{Str, lit}

-- The errors that callers tell apart by errors.Is and errors.As; `wrap` is fmt.Errorf with
-- %w at the end, and `suffix` with %w at the beginning.
pub data Error : Type 0 where
  not_found : Error
  validation : (field message : Str) → Error
  canceled : Error
  deadline_exceeded : Error
  other : Str → Error
  wrap : (prefix : Str) → Error → Error
  suffix : Error → (rest : Str) → Error

-- `err.Error()`.
unfoldable pub error_text : Error → Str
error_text not_found = lit "submission not found"
error_text (validation field message) = field ++ (lit ": " ++ message)
error_text canceled = lit "context canceled"
error_text deadline_exceeded = lit "context deadline exceeded"
error_text (other message) = message
error_text (wrap prefix e) = prefix ++ error_text e
error_text (suffix e rest) = error_text e ++ rest

-- `errors.Is(err, submission.ErrNotFound)`.
unfoldable pub is_not_found : Error → Bool
is_not_found not_found = true
is_not_found (wrap prefix e) = is_not_found e
is_not_found (suffix e rest) = is_not_found e
is_not_found _ = false

-- `errors.Is(err, context.Canceled)`.
unfoldable pub is_canceled : Error → Bool
is_canceled canceled = true
is_canceled (wrap prefix e) = is_canceled e
is_canceled (suffix e rest) = is_canceled e
is_canceled _ = false

-- `errors.Is(err, context.DeadlineExceeded)`.
unfoldable pub is_deadline_exceeded : Error → Bool
is_deadline_exceeded deadline_exceeded = true
is_deadline_exceeded (wrap prefix e) = is_deadline_exceeded e
is_deadline_exceeded (suffix e rest) = is_deadline_exceeded e
is_deadline_exceeded _ = false

-- The last two results of a Go function: an error, or else the value.
pub data Result {κ} (T : Type κ) : Type κ where
  err : (failure : Error) → Result T
  ok : (value : T) → Result T

-- What follows a step is skipped when the step failed, and gets the value when it did not.
infixl 5 ◌>>=◌ ◌>>◌
abbrev pub ◌>>=◌ {κ μ} : {S : Type κ} {T : Type μ} → Result S → (S → Result T) → Result T
err failure >>= next = err failure
ok value >>= next = next value

abbrev pub ◌>>◌ {κ} : {T : Type κ} → Result (Unit {0}) → Result T → Result T
err failure >> next = err failure
ok done >> next = next

-- `if test { return err }`.
unfoldable pub fail_if : Bool → Error → Result (Unit {0})
fail_if true e = err e
fail_if false e = ok tt

-- `value, ok := lookup; if !ok { return err }`.
unfoldable pub or_fail {κ} : {T : Type κ} → Option T → Error → Result T
or_fail (some value) failure = ok value
or_fail none failure = err failure

pub ok_value {ℓ} : {A : Type ℓ} {a b : A} → ◌≡◌ {A = Result A} (ok a) (ok b) → a ≡ b
ok_value h = cc

-- A chain that succeeded: its first step did, and so did what came behind it.
module _ {μ} {T : Type μ} where
  pub >>-eq-ok :
      (step : Result (Unit {0})) (next : Result T) {value : T}
      → (step >> next) ≡ ok value
      → (step ≡ ok tt) × (next ≡ ok value)
  >>-eq-ok (err failure) next chained = cc
  >>-eq-ok (ok tt) next chained = (refl, chained)

  pub >>=-eq-ok {κ} :
      {S : Type κ} (step : Result S) (next : S → Result T) {value : T}
      → (step >>= next) ≡ ok value
      → (s : S) × (step ≡ ok s) × (next s ≡ ok value)
  >>=-eq-ok (err failure) next chained = cc
  >>=-eq-ok (ok s) next chained = (s, refl, chained)

pub fail_if-eq-ok : (test : Bool) (e : Error) → fail_if test e ≡ ok tt → test ≡ false
unfolding fail_if
fail_if-eq-ok true e h = cc
fail_if-eq-ok false e h = refl

pub or_fail-eq-ok {ℓ} :
    {A : Type ℓ} (o : Option A) (e : Error) {a : A} → or_fail o e ≡ ok a → o ≡ some a
unfolding or_fail
or_fail-eq-ok none e h = cc
or_fail-eq-ok (some b) e h = cc
