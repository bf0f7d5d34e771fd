-- ===== src/Sandbox/Isolate/Args.antt =====
-- The command lines of isolate.
pub mod Exact
use batasd.Common.{
  suc, ℕ, zero, ◌≡◌, refl, ◌+◌, ◌*◌, ◌/◌, ◌%◌, ◌^◌, Bool, List, [], ◌∷◌, ◌++◌, if◌then◌else◌, ltb,
}
use batasd.Common.Int.{ℤ, pos, negsuc, ltb_ℤ, leb_ℤ, scale_int64}
use batasd.Common.Str.{Str, lit, format_int, format_ℕ}
use batasd.Submission.Model.{Limits}
use batasd.Sandbox.{Command}

abbrev pub box_dir : Str
box_dir = lit "/box"

-- Durations are nanoseconds.
abbrev pub default_wall_time : ℤ
default_wall_time = pos 10000000000

abbrev pub manager_grace_timeout : ℤ
manager_grace_timeout = pos 5000000000

unfoldable pub wall_timeout : ℤ → ℤ
unfolding scale_int64
wall_timeout wall_time_ms =
    if leb_ℤ wall_time_ms (pos 0) then default_wall_time else scale_int64 1000000 wall_time_ms

-- The quotient n / d rounded to an integer, halfway cases to the even one.
unfoldable pub round_half_even : ℕ → ℕ → ℕ
round_half_even n d =
    let q = n / d in
    let twice = 2 * (n % d) in if ltb twice d then q else if ltb d twice then q + 1 else q + q % 2

-- The power of two that brings n below 2^53; 11 halvings are enough for an int64.
unfoldable pub spare_bits : ℕ → ℕ → ℕ
spare_bits zero n = 0
spare_bits (suc fuel) n =
    let rest = spare_bits fuel (n / 2) in if ltb n (2 ^ 53) then 0 else rest + 1

-- float64(n), which keeps 53 bits.
unfoldable pub float_of : ℕ → ℕ
unfolding spare_bits round_half_even
float_of n = let s = spare_bits 11 n in round_half_even n (2 ^ s) * 2 ^ s

-- How often n / 1000 can be doubled below 2^53; from 1 / 1000 on, 63 times at most.
unfoldable pub fraction_bits : ℕ → ℕ → ℕ
fraction_bits zero n = 0
fraction_bits (suc fuel) n =
    let rest = fraction_bits fuel (2 * n) in if ltb (2 * n) (2 ^ 53 * 1000) then rest + 1 else 0

-- The float64 nearest to n / 1000, in thousandths rounded to an integer: the digits that
-- strconv.FormatFloat prints with the format 'f' and three decimals.
unfoldable pub thousandths : ℕ → ℕ
unfolding fraction_bits round_half_even
thousandths n =
    let t = fraction_bits 63 n in
    if ltb n (2 ^ 53 * 1000)
    then round_half_even (round_half_even (n * 2 ^ t) 1000 * 1000) (2 ^ t)
    else round_half_even n 2000 * 2000

-- n thousandths, with three decimals.
unfoldable pub format_thousandths : ℕ → Str
unfolding format_ℕ
format_thousandths n =
    format_ℕ (n / 1000)
    ++ (b'.' ∷ (b'0' + n / 100 % 10) ∷ (b'0' + n / 10 % 10) ∷ (b'0' + n % 10) ∷ [])

unfoldable pub milliseconds_as_seconds : ℤ → Str
unfolding format_thousandths thousandths float_of
milliseconds_as_seconds (pos n) = format_thousandths (thousandths (float_of n))
milliseconds_as_seconds (negsuc n) = b'-' ∷ format_thousandths (thousandths (float_of (suc n)))

unfoldable pub base_args : Bool → ℕ → List Str
unfolding format_ℕ
base_args use_cg box_id =
    lit "--box-id" ∷ format_ℕ box_id ∷ (if use_cg then lit "--cg" ∷ [] else [])

-- `if value > 0 { args = append(args, …) }`.
unfoldable pub when_positive : ℤ → List Str → List Str
when_positive value args = if ltb_ℤ (pos 0) value then args else []

unfoldable pub env_args : List Str
env_args =
    lit "--env"
    ∷ lit "PATH=/usr/local/go/bin:/usr/local/bin:/usr/bin:/bin"
    ∷ lit "--env"
    ∷ (lit "HOME=" ++ box_dir)
    ∷ lit "--env"
    ∷ lit "CGO_ENABLED=0"
    ∷ lit "--env"
    ∷ lit "CARGO_HOME=/usr/local/cargo"
    ∷ lit "--env"
    ∷ (lit "GOCACHE=" ++ (box_dir ++ lit "/.cache/go-build"))
    ∷ lit "--env"
    ∷ (lit "GOMODCACHE=" ++ (box_dir ++ lit "/.cache/go-mod"))
    ∷ lit "--env"
    ∷ lit "PYTHONDONTWRITEBYTECODE=1"
    ∷ lit "--env"
    ∷ lit "RUSTUP_HOME=/usr/local/rustup"
    ∷ []

unfoldable pub time_args : Limits → List Str
unfolding when_positive milliseconds_as_seconds
time_args l =
    when_positive l.cpu_time_ms (lit "--time" ∷ milliseconds_as_seconds l.cpu_time_ms ∷ [])
    ++ (when_positive l.cpu_extra_ms
          (lit "--extra-time" ∷ milliseconds_as_seconds l.cpu_extra_ms ∷ [])
        ++ when_positive l.wall_time_ms
            (lit "--wall-time" ∷ milliseconds_as_seconds l.wall_time_ms ∷ []))

unfoldable pub memory_args : Bool → Limits → List Str
unfolding when_positive format_int
memory_args use_cg l = when_positive l.memory_kb (
    lit "--mem"
    ∷ format_int l.memory_kb
    ∷ (if use_cg then lit "--cg-mem" ∷ format_int l.memory_kb ∷ [] else []))

unfoldable pub size_args : Limits → List Str
unfolding when_positive format_int
size_args l =
    when_positive l.stack_kb (lit "--stack" ∷ format_int l.stack_kb ∷ [])
    ++ (when_positive l.max_file_kb (lit "--fsize" ∷ format_int l.max_file_kb ∷ [])
        ++ when_positive l.max_processes ((lit "--processes=" ++ format_int l.max_processes) ∷ []))

unfoldable pub network_args : Limits → List Str
network_args l = if l.network then lit "--share-net" ∷ [] else []

unfoldable pub limit_args : Bool → Limits → List Str
unfolding time_args memory_args size_args network_args
limit_args use_cg l = time_args l ++ (memory_args use_cg l ++ (size_args l ++ network_args l))

-- The options of a run, without the program behind them.
unfoldable pub run_options : Bool → ℕ → Str → Str → Limits → List Str
unfolding base_args env_args limit_args
run_options use_cg box_id host_dir meta_path limits =
    base_args use_cg box_id
    ++ (lit "--silent"
        ∷ lit "--meta"
        ∷ meta_path
        ∷ lit "--chdir"
        ∷ box_dir
        ∷ lit "--dir"
        ∷ (box_dir ++ (lit "=" ++ (host_dir ++ lit ":rw")))
        ∷ (env_args ++ limit_args use_cg limits))

unfoldable pub run_args : Bool → ℕ → Str → Str → Command → List Str
unfolding run_options
run_args use_cg box_id host_dir meta_path command =
    run_options use_cg box_id host_dir meta_path command.limits
    ++ (lit "--run" ∷ lit "--" ∷ command.args)

seconds_test : milliseconds_as_seconds (pos 1050) ≡ lit "1.050"
unfolding milliseconds_as_seconds
seconds_test = refl

seconds_large_test : thousandths (float_of 9007199254740993) ≡ 9007199254740992
unfolding thousandths float_of
seconds_large_test = refl
