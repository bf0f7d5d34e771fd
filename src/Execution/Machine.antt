-- ===== src/Execution/Machine.antt =====
-- What internal/execution/engine.go asks of the operating system, the sandbox and the parts of
-- Go's standard library that are not modelled.
use batasd.Common.{ℕ, Bool, List, Option}
use batasd.Common.Str.{Str}
use batasd.Common.Errors.{Error, Result}
use batasd.Common.Effects.{Io}
use batasd.Sandbox.{Runner}
use batasd.Submission.Model.{Time}

-- An entry of a zip archive: what its header says, and what reading it gives. `broken` is the error
-- that a reader meets behind the last byte of `body`.
pub record ZipFile : Type 0 where
  pub name : Str
  pub is_symlink : Bool
  pub is_dir : Bool
  pub is_regular : Bool
  pub unreadable : Option Error
  pub body : Str
  pub broken : Option Error

-- The operations on a world W. An error leaves the world that the attempt led to.
pub record Machine (W : Type 0) : Type 0 where
  pub now : W → Time × W
  pub mkdir_all : Str → ℕ → Io W (Unit {0})
  pub mkdir_temp : Str → Str → Io W Str
  pub chmod : Str → ℕ → Io W (Unit {0})
  pub write_file : Str → Str → ℕ → Io W (Unit {0})
  pub remove_all : Str → W → W
  -- os.Getwd, for filepath.Abs.
  pub getwd : Io W Str
  -- os.OpenFile with O_WRONLY, O_CREATE and O_EXCL, and writing to the file that it opened.
  pub create_new : Str → ℕ → Io W (Unit {0})
  pub write_new : Str → Str → Io W (Unit {0})
  pub runner : Runner W
  -- base64.StdEncoding.DecodeString, zip.NewReader and the `%q` of package fmt.
  pub decode_base64 : Str → Result Str
  pub read_zip : Str → Result (List ZipFile)
  pub quote : Str → Str
