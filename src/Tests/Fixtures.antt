-- ===== src/Tests/Fixtures.antt =====
-- A small machine, a submission and the rest that the tests run on.
use batasd.Common.{true, false, List, [], ◌∷◌, none, some}
use batasd.Common.Int.{pos}
use batasd.Common.Str.{Str, lit}
use batasd.Common.Errors.{ok}
use batasd.Submission.Model.{Limits, Submission, AdditionalFiles}
use batasd.Sandbox.{Command, SandboxResult}
use batasd.Language.{Runtime}
use batasd.Execution.Machine.{Machine, ZipFile}

abbrev pub limits : Limits
limits = record {
  cpu_time_ms = pos 1000;
  cpu_extra_ms = pos 100;
  wall_time_ms = pos 2000;
  memory_kb = pos 65536;
  stack_kb = pos 0;
  max_processes = pos 8;
  max_output_kb = pos 64;
  max_file_kb = pos 64;
  network = false;
  runs = pos 2;
}

abbrev pub passing : SandboxResult
passing = record {
  stdout = lit "hi\n";
  stderr = [];
  stdout_limit = false;
  stderr_limit = false;
  message = [];
  exit_code = some (pos 0);
  exit_signal = none;
  time_ms = pos 10;
  wall_time_ms = pos 20;
  memory_kb = some (pos 512);
  timed_out = false;
  memory_limit = false;
  output_limit = false;
  failure = none;
}

abbrev pub slower : SandboxResult
slower = record passing { time_ms = pos 13; memory_kb = some (pos 600) }

abbrev pub text_file : Str → ZipFile
text_file name = record {
  name = name;
  is_symlink = false;
  is_dir = false;
  is_regular = true;
  unreadable = none;
  body = lit "abc";
  broken = none;
}

-- The world is the list of the paths that were touched and the runs that were made, latest first.
abbrev pub World : Type 0
World = List Str

abbrev pub machine : Machine World
machine = record {
  now = λ w. (7, w);
  mkdir_all = λ path mode w. (ok tt, path ∷ w);
  mkdir_temp = λ dir pattern w. (ok (lit "/w/sub"), lit "/w/sub" ∷ w);
  chmod = λ path mode w. (ok tt, w);
  write_file = λ path body mode w. (ok tt, path ∷ w);
  remove_all = λ path w. lit "removed" ∷ w;
  getwd = λ w. (ok (lit "/"), w);
  create_new = λ path mode w. (ok tt, path ∷ w);
  write_new = λ path body w. (ok tt, path ∷ w);
  runner = λ command w. (passing, lit "run" ∷ w);
  decode_base64 = λ s. ok s;
  read_zip = λ s. ok (text_file (lit "a.txt") ∷ text_file (lit "d/b.txt") ∷ []);
  quote = λ s. s;
}

abbrev pub command : Command
command = record { args = lit "/bin/prog" ∷ []; dir = lit "/w/sub"; input = []; limits = limits }

abbrev pub runtime : Runtime
runtime = record {
  slug = lit "c";
  name = lit "C";
  version = lit "17";
  source_file = lit "main.c";
  compile = lit "cc" ∷ lit "main.c" ∷ [];
  run = lit "./a.out" ∷ [];
  default_limits = none;
}

abbrev pub submission : Submission
submission = record {
  token = lit "sub_a";
  language = lit "c";
  language_version = lit "17";
  source = lit "int main";
  input = [];
  expected_output = some (lit "hi");
  arguments = lit "x" ∷ [];
  compiler_options = [];
  limits = limits;
  additional_files = none;
  callback_url = none;
  status_code = lit "queued";
  stdout = none;
  stderr = none;
  stdout_truncated = false;
  stderr_truncated = false;
  compile_output = none;
  compile_output_truncated = false;
  message = none;
  exit_code = none;
  exit_signal = none;
  time_ms = none;
  wall_time_ms = none;
  memory_kb = none;
  created_at = 1;
  queued_at = some 1;
  started_at = none;
  finished_at = none;
  updated_at = 1;
}

abbrev pub zip_files : AdditionalFiles
zip_files = record { encoding = lit "zip_base64"; content = lit "UEsDBA==" }
