-- ===== src/Status.antt =====
-- internal/status/status.go: the public status codes.
pub mod Laws
use batasd.Common.{Bool, true, false, List, [], ◌∷◌, if◌then◌else◌}
use batasd.Common.Str.{Str, lit, str_eq}

pub record Status : Type 0 where
  pub code : Str
  pub description : Str

abbrev pub queued : Str
queued = lit "queued"

abbrev pub processing : Str
processing = lit "processing"

abbrev pub accepted : Str
accepted = lit "accepted"

abbrev pub wrong_answer : Str
wrong_answer = lit "wrong_answer"

abbrev pub compilation_error : Str
compilation_error = lit "compilation_error"

abbrev pub runtime_error : Str
runtime_error = lit "runtime_error"

abbrev pub time_limit_exceeded : Str
time_limit_exceeded = lit "time_limit_exceeded"

abbrev pub memory_limit_exceeded : Str
memory_limit_exceeded = lit "memory_limit_exceeded"

abbrev pub output_limit_exceeded : Str
output_limit_exceeded = lit "output_limit_exceeded"

abbrev pub internal_error : Str
internal_error = lit "internal_error"

abbrev pub sandbox_error : Str
sandbox_error = lit "sandbox_error"

-- `all`, in its order.
unfoldable pub all_statuses : List Status
all_statuses =
    record { code = queued; description = lit "Queued" }
    ∷ record { code = processing; description = lit "Processing" }
    ∷ record { code = accepted; description = lit "Accepted" }
    ∷ record { code = wrong_answer; description = lit "Wrong Answer" }
    ∷ record { code = compilation_error; description = lit "Compilation Error" }
    ∷ record { code = runtime_error; description = lit "Runtime Error" }
    ∷ record { code = time_limit_exceeded; description = lit "Time Limit Exceeded" }
    ∷ record { code = memory_limit_exceeded; description = lit "Memory Limit Exceeded" }
    ∷ record { code = output_limit_exceeded; description = lit "Output Limit Exceeded" }
    ∷ record { code = internal_error; description = lit "Internal Error" }
    ∷ record { code = sandbox_error; description = lit "Sandbox Error" }
    ∷ []

-- The loop of `Valid`.
unfoldable pub valid_in : List Status → Str → Bool
valid_in [] code = false
valid_in (item ∷ items) code = if str_eq item.code code then true else valid_in items code

unfoldable pub valid : Str → Bool
unfolding valid_in all_statuses
valid code = valid_in all_statuses code

unfoldable pub terminal : Str → Bool
terminal code = if str_eq code queued then false else if str_eq code processing then false else true

-- The loop of `Describe`.
unfoldable pub describe_in : List Status → Str → Status
describe_in [] code = record { code = code; description = code }
describe_in (item ∷ items) code = if str_eq item.code code then item else describe_in items code

unfoldable pub describe : Str → Status
unfolding describe_in all_statuses
describe code = describe_in all_statuses code
