-- ===== src/Sandbox/Isolate/Meta.antt =====
-- The meta file that isolate writes: reading it, and what it adds to a result.
pub mod RoundTrip
use batasd.Common.{
  ℕ, ◌^◌, Bool, true, false, not, ◌||◌, ◌&&◌, List, [], ◌∷◌, ◌++◌, map, reverse, Option, none, some,
  if◌then◌else◌, leb, ◌==◌, length, any, is_some,
}
use batasd.Common.Int.{ℤ, negsuc}
use batasd.Common.Str.{Str, lit, str_eq, is_empty, trim_space}
use batasd.Common.Strconv.{parse_int, cut, to_lower}
use batasd.Common.Errors.{Error, other}
use batasd.Sandbox.{SandboxResult}
use batasd.Sandbox.Process.{FileRead, missing, out_of_reach, bytes}

-- A map, as its entries: the first one of a key counts.
abbrev pub Meta : Type 0
Meta = List (Str × Str)

unfoldable pub lookup : Str → Meta → Option Str
unfolding str_eq
lookup key [] = none
lookup key ((k, v) ∷ m) = if str_eq k key then some v else lookup key m

-- `values[key]`, which is empty for a missing key.
unfoldable pub value_of : Str → Meta → Str
unfolding lookup
value_of key m = elim (lookup key m) [ none ↦ [] | some v ↦ v ]

-- bufio.ScanLines: the pieces between the line ends, without an empty one behind the last.
abbrev pub put_front : ℕ → List Str → List Str
put_front c [] = (c ∷ []) ∷ []
put_front c (line ∷ lines) = (c ∷ line) ∷ lines

unfoldable pub split_lines : Str → List Str
split_lines [] = []
split_lines (c ∷ s) =
    let lines = split_lines s in if c == b'\n' then [] ∷ lines else put_front c lines

-- A carriage return at the end of a line is dropped.
unfoldable pub drop_cr : Str → Str
drop_cr [] = []
drop_cr (c ∷ []) = if c == b'\r' then [] else c ∷ []
drop_cr (c ∷ d ∷ s) = c ∷ drop_cr (d ∷ s)

-- bufio.MaxScanTokenSize: a line must fit into the buffer together with its end.
abbrev pub is_too_long : Str → Bool
is_too_long line = leb (2 ^ 16) (length line)

-- `values[key] = value`; a line without a colon is passed over.
unfoldable pub add_line : Meta → Str → Meta
unfolding cut
add_line m line = elim (cut b':' line) [ none ↦ m | some p ↦ p ∷ m ]

unfoldable pub add_lines : Meta → List Str → Meta
unfolding add_line drop_cr
add_lines m [] = m
add_lines m (line ∷ lines) = add_lines (add_line m (drop_cr line)) lines

-- What readMetaFile returns. A missing file is an error of its own, since Run tells it apart.
pub data MetaRead : Type 0 where
  values : Meta → MetaRead
  not_there : MetaRead
  failed : Error → MetaRead

unfoldable pub scan_meta : Str → Option Error → MetaRead
unfolding split_lines add_lines
scan_meta content read_error =
    if any is_too_long (split_lines content)
    then failed (other (lit "bufio.Scanner: token too long"))
    else elim read_error [ some e ↦ failed e | none ↦ values (add_lines [] (split_lines content)) ]

unfoldable pub read_meta_file : FileRead → MetaRead
unfolding scan_meta
read_meta_file missing = not_there
read_meta_file (out_of_reach e) = failed e
read_meta_file (bytes content read_error) = scan_meta content read_error

unfoldable pub is_falsy : Str → Bool
unfolding str_eq
is_falsy text = str_eq text (lit "0") || (str_eq text (lit "false") || str_eq text (lit "no"))

unfoldable pub meta_flag : Meta → Str → Bool
unfolding lookup is_falsy to_lower trim_space
meta_flag m key = elim (lookup key m) [
  | none ↦ false
  | some v ↦ not (is_falsy (to_lower (trim_space v)))
]

-- strconv.ParseFloat, and int64(seconds * 1000) on what it returns. Neither is modelled.
pub record Floats : Type 1 where
  pub Float : Type 0
  pub parse_float : Str → Option Float
  pub to_ms : Float → ℤ

unfoldable pub parse_seconds_ms : Floats → Str → Option ℤ
unfolding trim_space
parse_seconds_ms floats value = elim (floats.parse_float (trim_space value)) [
  | none ↦ none
  | some seconds ↦ some (floats.to_ms seconds)
]

-- parseInt64 and parseInt, which agree where an int has 64 bits.
unfoldable pub parse_int64 : Str → Option ℤ
unfolding parse_int trim_space
parse_int64 value = parse_int (trim_space value)

-- `if value, ok := …; ok { field = value }`.
abbrev pub or_else {ℓ} : {A : Type ℓ} → Option A → A → A
or_else none old = old
or_else (some new) old = new

abbrev pub first_some {ℓ} : {A : Type ℓ} → Option A → Option A → Option A
first_some none later = later
first_some (some a) later = some a

-- `if result.Message == "" { result.Message = text }`.
unfoldable pub with_default_message : Str → SandboxResult → SandboxResult
with_default_message text r = record r { message = if is_empty r.message then text else r.message }

unfoldable pub with_default_code : SandboxResult → SandboxResult
with_default_code r = record r { exit_code = first_some r.exit_code (some (negsuc 0)) }

-- The times, the memory and the exit code. The resident set wins over what the control group used.
unfoldable pub apply_numbers : Floats → Meta → SandboxResult → SandboxResult
unfolding parse_seconds_ms parse_int64 value_of
apply_numbers floats m r = record r {
  time_ms = or_else (parse_seconds_ms floats (value_of (lit "time") m)) r.time_ms;
  wall_time_ms = or_else (parse_seconds_ms floats (value_of (lit "time-wall") m)) r.wall_time_ms;
  memory_kb =
      first_some (first_some (parse_int64 (value_of (lit "max-rss") m)) r.memory_kb)
        (parse_int64 (value_of (lit "cg-mem") m));
  exit_code = first_some (parse_int64 (value_of (lit "exitcode") m)) r.exit_code;
}

unfoldable pub apply_signal : Meta → SandboxResult → SandboxResult
unfolding value_of trim_space with_default_code
apply_signal m r =
    let signal = trim_space (value_of (lit "exitsig") m) in
    if is_empty signal then r else with_default_code (record r { exit_signal = some signal })

unfoldable pub apply_message : Meta → SandboxResult → SandboxResult
unfolding value_of trim_space
apply_message m r =
    let message = trim_space (value_of (lit "message") m) in
    if is_empty message then r else record r { message = message }

unfoldable pub apply_memory_flag : Meta → SandboxResult → SandboxResult
unfolding meta_flag with_default_message
apply_memory_flag m r =
    if meta_flag m (lit "cg-oom-killed")
    then with_default_message (lit "memory limit exceeded") (record r { memory_limit = true })
    else r

-- `result.Err = errors.New(result.Message)`.
unfoldable pub with_message_as_failure : SandboxResult → SandboxResult
with_message_as_failure r = record r { failure = some (other r.message) }

unfoldable pub apply_status : Str → SandboxResult → SandboxResult
unfolding str_eq with_default_message with_default_code with_message_as_failure
apply_status status r =
    if str_eq status (lit "TO")
    then with_default_message (lit "time limit exceeded") (record r { timed_out = true })
    else if str_eq status (lit "XX")
    then with_message_as_failure (with_default_message (lit "isolate internal error") r)
    else if str_eq status (lit "SG")
    then with_default_code r
    else r

unfoldable pub apply_meta : Floats → Meta → SandboxResult → SandboxResult
unfolding apply_numbers apply_signal apply_message apply_memory_flag apply_status value_of
apply_meta floats m r =
    apply_status (value_of (lit "status") m)
      (apply_memory_flag m (apply_message m (apply_signal m (apply_numbers floats m r))))
