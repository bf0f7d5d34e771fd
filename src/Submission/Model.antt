-- ===== src/Submission/Model.antt =====
-- internal/submission/model.go: the records that the other parts exchange.
use batasd.Common.{Bool, List, Option, ℕ}
use batasd.Common.Int.{ℤ}
use batasd.Common.Str.{Str}

-- A time.Time: nanoseconds since the zero time, which is 0.
abbrev pub Time : Type 0
Time = ℕ

pub record Limits : Type 0 where
  pub cpu_time_ms : ℤ
  pub cpu_extra_ms : ℤ
  pub wall_time_ms : ℤ
  pub memory_kb : ℤ
  pub stack_kb : ℤ
  pub max_processes : ℤ
  pub max_output_kb : ℤ
  pub max_file_kb : ℤ
  pub network : Bool
  pub runs : ℤ

pub record AdditionalFiles : Type 0 where
  pub encoding : Str
  pub content : Str

pub record Callback : Type 0 where
  pub url : Str

-- `arguments` and `compiler_options` are slices, which are nil when the request leaves them out.
pub record CreateRequest : Type 0 where
  pub source : Str
  pub language : Str
  pub language_version : Str
  pub input : Str
  pub expected_output : Option Str
  pub arguments : Option (List Str)
  pub compiler_options : Option (List Str)
  pub limits : Option Limits
  pub additional_files : Option AdditionalFiles
  pub callback : Option Callback

pub record ListQuery : Type 0 where
  pub limit : ℤ
  pub before_token : Str
  pub status_code : Str
  pub language : Str

pub record Submission : Type 0 where
  pub token : Str
  pub language : Str
  pub language_version : Str
  pub source : Str
  pub input : Str
  pub expected_output : Option Str
  pub arguments : List Str
  pub compiler_options : List Str
  pub limits : Limits
  pub additional_files : Option AdditionalFiles
  pub callback_url : Option Str
  pub status_code : Str
  pub stdout : Option Str
  pub stderr : Option Str
  pub stdout_truncated : Bool
  pub stderr_truncated : Bool
  pub compile_output : Option Str
  pub compile_output_truncated : Bool
  pub message : Option Str
  pub exit_code : Option ℤ
  pub exit_signal : Option Str
  pub time_ms : Option ℤ
  pub wall_time_ms : Option ℤ
  pub memory_kb : Option ℤ
  pub created_at : Time
  pub queued_at : Option Time
  pub started_at : Option Time
  pub finished_at : Option Time
  pub updated_at : Time

pub record ListResult : Type 0 where
  pub submissions : List Submission
  pub next_before : Option Str
  pub limit : ℤ

pub record SubmissionResult : Type 0 where
  pub status_code : Str
  pub stdout : Option Str
  pub stderr : Option Str
  pub stdout_truncated : Bool
  pub stderr_truncated : Bool
  pub compile_output : Option Str
  pub compile_output_truncated : Bool
  pub message : Option Str
  pub exit_code : Option ℤ
  pub exit_signal : Option Str
  pub time_ms : Option ℤ
  pub wall_time_ms : Option ℤ
  pub memory_kb : Option ℤ
  pub finished_at : Time

pub record CallbackAttempt : Type 0 where
  pub id : ℤ
  pub submission_token : Str
  pub attempt : ℤ
  pub status_code : Option ℤ
  pub error : Option Str
  pub created_at : Time
