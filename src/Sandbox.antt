-- ===== src/Sandbox.antt =====
-- internal/sandbox/sandbox.go: what a sandbox is asked to run, and what it reports.
pub mod Output
pub mod Process
pub mod Watched
pub mod Isolate
pub mod Docker
pub mod Direct
pub mod Network
use batasd.Common.{Bool, List, Option}
use batasd.Common.Int.{ℤ}
use batasd.Common.Str.{Str}
use batasd.Common.Errors.{Error}
use batasd.Submission.Model.{Limits}

pub record Command : Type 0 where
  pub args : List Str
  pub dir : Str
  pub input : Str
  pub limits : Limits

pub record SandboxResult : Type 0 where
  pub stdout : Str
  pub stderr : Str
  pub stdout_limit : Bool
  pub stderr_limit : Bool
  pub message : Str
  pub exit_code : Option ℤ
  pub exit_signal : Option Str
  pub time_ms : ℤ
  pub wall_time_ms : ℤ
  pub memory_kb : Option ℤ
  pub timed_out : Bool
  pub memory_limit : Bool
  pub output_limit : Bool
  pub failure : Option Error

-- The Runner interface: a run may change the state of the machine.
abbrev pub Runner : Type 0 → Type 0
Runner W = Command → W → SandboxResult × W
