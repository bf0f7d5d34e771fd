-- ===== src/Sandbox/Network.antt =====
-- When a program has the network, by the arguments that internal/sandbox/isolate/isolate.go starts
-- it with.
pub mod Asked
use batasd.Common.{
  ℕ, zero, suc, ◌+◌, ◌/◌, ◌%◌, ◌≤◌, Bool, true, false, ◌&&◌, ◌||◌, not, List, [], ◌∷◌, ◌++◌, any,
  if◌then◌else◌, ltb, leb, ◌==◌, ◌≡◌, refl, sym, ◌∙◌, ap, Bool-cases, inl, inr, arith,
}
use batasd.Common.Int.{ℤ, pos, negsuc, ltb_ℤ}
use batasd.Common.Str.{Str, lit, str_eq, decimal_from, format_ℕ, format_int}
use batasd.Submission.Model.{Limits}
use batasd.Sandbox.{Command}
use batasd.Sandbox.Isolate.Args.{
  base_args, env_args, when_positive, limit_args, time_args, memory_args, size_args, network_args,
  run_options, run_args, milliseconds_as_seconds, format_thousandths, thousandths, float_of,
}

-- Whether an option is among some arguments.
abbrev pub is_set : Str → List Str → Bool
is_set option args = any (str_eq option) args

is_set-append :
    (option : Str) (xs ys : List Str)
    → is_set option (xs ++ ys) ≡ (is_set option xs || is_set option ys)
is_set-append option [] ys = refl
is_set-append option (x ∷ xs) ys = ground (arith, is_set-append option xs ys)

-- A number is printed with a digit first, so it is no option.
abbrev pub starts_with_digit : Str → Bool
starts_with_digit [] = false
starts_with_digit (c ∷ s) = leb b'0' c

starts-decimal_from :
    (fuel n : ℕ) (s : Str)
    → starts_with_digit s ≡ true
    → starts_with_digit (decimal_from fuel n s) ≡ true
unfolding decimal_from
starts-decimal_from zero n s h = h
starts-decimal_from (suc fuel) n s h = elim (Bool-cases (ltb n 10)) [
  | inl last ↦ rw (last, decimal_from) (ground arith)
  | inr more ↦
      rw (more, decimal_from)
        (starts-decimal_from fuel (n / 10) ((b'0' + n % 10) ∷ s) (ground arith))
]

pub starts-format_ℕ : (n : ℕ) → starts_with_digit (format_ℕ n) ≡ true
unfolding format_ℕ decimal_from
starts-format_ℕ n = elim (Bool-cases (ltb n 10)) [
  | inl last ↦ rw (last, format_ℕ, decimal_from) (ground arith)
  | inr more ↦
      rw (more, format_ℕ, decimal_from)
        (starts-decimal_from n (n / 10) ((b'0' + n % 10) ∷ []) (ground arith))
]

pub starts-append : (s t : Str) → starts_with_digit s ≡ true → starts_with_digit (s ++ t) ≡ true
starts-append [] t h = absurd (cc)
starts-append (c ∷ s) t h = h

pub no_option : (option s : Str) → starts_with_digit s ≡ true → str_eq (b'-' ∷ option) s ≡ false
unfolding str_eq
no_option option [] h = absurd (cc)
no_option option (c ∷ s) h = ground arith

abbrev pub share_net : Str
share_net = lit "--share-net"

number_unset : (n : ℕ) → str_eq share_net (format_ℕ n) ≡ false
number_unset n = no_option _ (format_ℕ n) (starts-format_ℕ n)

starts-format_thousandths : (n : ℕ) → starts_with_digit (format_thousandths n) ≡ true
unfolding format_thousandths
starts-format_thousandths n =
    starts-append (format_ℕ (n / 1000))
      (b'.' ∷ (b'0' + n / 100 % 10) ∷ (b'0' + n / 10 % 10) ∷ (b'0' + n % 10) ∷ [])
      (starts-format_ℕ (n / 1000))

seconds_unset : (n : ℕ) → str_eq share_net (milliseconds_as_seconds (pos n)) ≡ false
unfolding milliseconds_as_seconds
seconds_unset n = no_option _ _ (starts-format_thousandths (thousandths (float_of n)))

-- The arguments of a limit that is set, for every value that sets it.
when_positive-unset :
    (v : ℤ) (f : ℤ → List Str)
    → ((n : ℕ) → is_set share_net (f (pos n)) ≡ false)
    → is_set share_net (when_positive v (f v)) ≡ false
unfolding when_positive
when_positive-unset (pos n) f h = elim (Bool-cases (ltb 0 n)) [
  | inl some_time ↦ rw some_time (h n)
  | inr none ↦ rw none refl
]
when_positive-unset (negsuc n) f h = refl

base_args-unset : (use_cg : Bool) (box_id : ℕ) → is_set share_net (base_args use_cg box_id) ≡ false
unfolding base_args str_eq
base_args-unset true box_id = rw (number_unset box_id) refl
base_args-unset false box_id = rw (number_unset box_id) refl

pub append-unset :
    (option : Str) (xs ys : List Str) {set : Bool}
    → is_set option xs ≡ false
    → is_set option ys ≡ set
    → is_set option (xs ++ ys) ≡ set
append-unset option xs ys h k = is_set-append option xs ys ∙ rw (h, k) refl

module _ (l : Limits) where
  time_args-unset : is_set share_net (time_args l) ≡ false
  unfolding time_args str_eq
  time_args-unset =
      append-unset share_net
        (when_positive l.cpu_time_ms (lit "--time" ∷ milliseconds_as_seconds l.cpu_time_ms ∷ []))
        (when_positive l.cpu_extra_ms
            (lit "--extra-time" ∷ milliseconds_as_seconds l.cpu_extra_ms ∷ [])
          ++ when_positive l.wall_time_ms
              (lit "--wall-time" ∷ milliseconds_as_seconds l.wall_time_ms ∷ []))
        (one_time l.cpu_time_ms (lit "--time") refl)
        (append-unset share_net
          (when_positive l.cpu_extra_ms
            (lit "--extra-time" ∷ milliseconds_as_seconds l.cpu_extra_ms ∷ []))
          (when_positive l.wall_time_ms
            (lit "--wall-time" ∷ milliseconds_as_seconds l.wall_time_ms ∷ []))
          (one_time l.cpu_extra_ms (lit "--extra-time") refl)
          (one_time l.wall_time_ms (lit "--wall-time") refl))
    where
      one_time :
          (v : ℤ) (option : Str)
          → str_eq share_net option ≡ false
          → is_set share_net (when_positive v (option ∷ milliseconds_as_seconds v ∷ [])) ≡ false
      one_time v option apart =
          when_positive-unset v (λ v. option ∷ milliseconds_as_seconds v ∷ [])
            (λ n. rw (apart, seconds_unset n) refl)

  one_size :
      (v : ℤ) (option : Str)
      → str_eq share_net option ≡ false
      → is_set share_net (when_positive v (option ∷ format_int v ∷ [])) ≡ false
  unfolding format_int
  one_size v option apart =
      when_positive-unset v (λ v. option ∷ format_int v ∷ []) (λ n. rw (apart, number_unset n) refl)

  size_args-unset : is_set share_net (size_args l) ≡ false
  unfolding size_args str_eq
  size_args-unset =
      append-unset share_net (when_positive l.stack_kb (lit "--stack" ∷ format_int l.stack_kb ∷ []))
        (when_positive l.max_file_kb (lit "--fsize" ∷ format_int l.max_file_kb ∷ [])
          ++ when_positive l.max_processes
              ((lit "--processes=" ++ format_int l.max_processes) ∷ []))
        (one_size l.stack_kb (lit "--stack") refl)
        (append-unset share_net
          (when_positive l.max_file_kb (lit "--fsize" ∷ format_int l.max_file_kb ∷ []))
          (when_positive l.max_processes ((lit "--processes=" ++ format_int l.max_processes) ∷ []))
          (one_size l.max_file_kb (lit "--fsize") refl)
          (when_positive-unset l.max_processes (λ v. (lit "--processes=" ++ format_int v) ∷ [])
            (λ n. refl)))

  memory_args-unset : (use_cg : Bool) → is_set share_net (memory_args use_cg l) ≡ false
  unfolding memory_args format_int str_eq
  memory_args-unset true =
      when_positive-unset l.memory_kb
        (λ v. lit "--mem" ∷ format_int v ∷ lit "--cg-mem" ∷ format_int v ∷ [])
        (λ n. rw (number_unset n) refl)
  memory_args-unset false =
      when_positive-unset l.memory_kb (λ v. lit "--mem" ∷ format_int v ∷ [])
        (λ n. rw (number_unset n) refl)

  network_args-set : is_set share_net (network_args l) ≡ l.network
  unfolding network_args str_eq
  network_args-set = last l.network
    where
      last : (network : Bool) → is_set share_net (if network then share_net ∷ [] else []) ≡ network
      last true = refl
      last false = refl

-- Of the options of a run of isolate.
pub run_options-network :
    (use_cg : Bool) (box_id : ℕ) (host_dir meta_path : Str) (l : Limits)
    → is_set share_net (run_options use_cg box_id host_dir (b'/' ∷ meta_path) l) ≡ l.network
unfolding run_options env_args limit_args str_eq
run_options-network use_cg box_id host_dir meta_path l =
    append-unset share_net (base_args use_cg box_id) _ (base_args-unset use_cg box_id) (
      append-unset share_net (time_args l) (memory_args use_cg l ++ (size_args l ++ network_args l))
        (time_args-unset l)
        (append-unset share_net (memory_args use_cg l) (size_args l ++ network_args l)
          (memory_args-unset l use_cg)
          (append-unset share_net (size_args l) (network_args l) (size_args-unset l)
            (network_args-set l))))
