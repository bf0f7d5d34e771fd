-- ===== src/Sandbox/Network/Asked.antt =====
-- The network by the arguments of internal/sandbox/docker/docker.go, and of both drivers.
use mathlib.Core.List.{append_assoc}
use batasd.Common.{
  ℕ, Bool, true, false, List, [], ◌∷◌, ◌++◌, Option, none, some, if◌then◌else◌, ltb, ◌≡◌, refl, sym,
  ◌∙◌, ap, Bool-cases, inl, inr,
}
use batasd.Common.Int.{ℤ, pos, negsuc, ltb_ℤ}
use batasd.Common.Str.{Str, lit, str_eq, format_int, format_ℕ}
use batasd.Submission.Model.{Limits}
use batasd.Sandbox.{Command}
use batasd.Sandbox.Isolate.Args.{run_options, run_args}
use batasd.Sandbox.Docker.{
  container_name, fixed_args, network_args, pids_args, memory_args, docker_args,
}
use batasd.Sandbox.Network.{
  is_set, share_net, append-unset, no_option, starts-append, starts-format_ℕ, run_options-network,
}

abbrev pub network : Str
network = lit "--network"

-- What stands behind the first occurrence of an option.
abbrev pub value_behind : Str → List Str → Option Str
value_behind option [] = none
value_behind option (a ∷ []) = none
value_behind option (a ∷ b ∷ args) =
    if str_eq option a then some b else value_behind option (b ∷ args)

value_behind-append :
    (option : Str) (xs ys : List Str)
    → is_set option xs ≡ false
    → value_behind option (xs ++ ys) ≡ value_behind option ys
value_behind-append option [] ys h = refl
value_behind-append option (a ∷ []) [] h = refl
value_behind-append option (a ∷ []) (b ∷ ys) h = elim (Bool-cases (str_eq option a)) [
  | inl same ↦ absurd (let e = rw same at h in cc)
  | inr apart ↦ rw apart refl
]
value_behind-append option (a ∷ b ∷ xs) ys h = elim (Bool-cases (str_eq option a)) [
  | inl same ↦ absurd (let e = rw same at h in cc)
  | inr apart ↦ rw apart (value_behind-append option (b ∷ xs) ys (rw apart at h))
]

value_behind-unset :
    (option : Str) (xs : List Str) → is_set option xs ≡ false → value_behind option xs ≡ none
value_behind-unset option [] h = refl
value_behind-unset option (a ∷ []) h = refl
value_behind-unset option (a ∷ b ∷ xs) h = elim (Bool-cases (str_eq option a)) [
  | inl same ↦ absurd (let e = rw same at h in cc)
  | inr apart ↦ rw apart (value_behind-unset option (b ∷ xs) (rw apart at h))
]

number_unset : (n : ℕ) → str_eq network (format_ℕ n) ≡ false
number_unset n = no_option _ (format_ℕ n) (starts-format_ℕ n)

pids_args-unset : (l : Limits) → is_set network (pids_args l) ≡ false
unfolding pids_args str_eq format_int
pids_args-unset l = by_value l.max_processes
  where
    by_value :
        (v : ℤ)
        → is_set network (if ltb_ℤ (pos 0) v then lit "--pids-limit" ∷ format_int v ∷ [] else [])
          ≡ false
    by_value (pos n) = elim (Bool-cases (ltb 0 n)) [
      | inl test ↦ rw (test, number_unset n) refl
      | inr test ↦ rw test refl
    ]
    by_value (negsuc n) = refl

memory_unset : (n : ℕ) → str_eq network (format_ℕ n ++ lit "k") ≡ false
memory_unset n =
    no_option _ (format_ℕ n ++ lit "k") (starts-append (format_ℕ n) (lit "k") (starts-format_ℕ n))

memory_args-unset : (l : Limits) → is_set network (memory_args l) ≡ false
unfolding memory_args str_eq format_int
memory_args-unset l = by_value l.memory_kb
  where
    by_value :
        (v : ℤ)
        → is_set network (
            if ltb_ℤ (pos 0) v
            then lit "--memory"
              ∷ (format_int v ++ lit "k")
              ∷ lit "--memory-swap"
              ∷ (format_int v ++ lit "k")
              ∷ []
            else [])
          ≡ false
    by_value (pos n) = elim (Bool-cases (ltb 0 n)) [
      | inl test ↦ rw (test, memory_unset n) refl
      | inr test ↦ rw test refl
    ]
    by_value (negsuc n) = refl

fixed_args-unset :
    (bytes host_dir : Str)
    → is_set network (fixed_args (container_name bytes) (b'/' ∷ host_dir)) ≡ false
unfolding fixed_args container_name str_eq
fixed_args-unset bytes host_dir = refl

-- The options of a container, before its image.
abbrev pub options : Str → Str → Limits → List Str
options name host_dir l =
    fixed_args name host_dir ++ (network_args l ++ (pids_args l ++ memory_args l))

network_args-behind :
    (l : Limits)
    → value_behind network (network_args l ++ (pids_args l ++ memory_args l))
      ≡ (if l.network then none else some (lit "none"))
unfolding network_args str_eq
network_args-behind l =
    by_flag l.network (pids_args l ++ memory_args l)
      (append-unset network (pids_args l) (memory_args l) (pids_args-unset l) (memory_args-unset l))
  where
    by_flag :
        (flag : Bool) (rest : List Str)
        → is_set network rest ≡ false
        → value_behind network ((if flag then [] else network ∷ lit "none" ∷ []) ++ rest)
          ≡ (if flag then none else some (lit "none"))
    by_flag true rest h = value_behind-unset network rest h
    by_flag false rest h = refl

options-network :
    (bytes host_dir : Str) (l : Limits)
    → value_behind network (options (container_name bytes) (b'/' ∷ host_dir) l)
      ≡ (if l.network then none else some (lit "none"))
options-network bytes host_dir l =
    value_behind-append network (fixed_args (container_name bytes) (b'/' ∷ host_dir)) _
      (fixed_args-unset bytes host_dir)
    ∙ network_args-behind l

-- Both drivers give a program the network exactly when the limits of its command say so, for absolute
-- paths. The arguments of isolate are options, among which `--share-net` is exactly then, and behind
-- `--run` and `--` the program with its arguments as they are. The arguments of docker are options,
-- in which `--network` is given as `none` exactly when the limits do not say so and is not given
-- otherwise, and behind them the image and the program with its arguments as they are.
pub network_asked :
    (use_cg : Bool) (box_id : ℕ) (image bytes host_dir meta_path : Str) (command : Command)
    → let isolated =
        run_options use_cg box_id (b'/' ∷ host_dir) (b'/' ∷ meta_path) command.limits in
      let contained = options (container_name bytes) (b'/' ∷ host_dir) command.limits in
      (run_args use_cg box_id (b'/' ∷ host_dir) (b'/' ∷ meta_path) command
        ≡ isolated ++ (lit "--run" ∷ lit "--" ∷ command.args))
      × (is_set share_net isolated ≡ command.limits.network)
      × (docker_args image (container_name bytes) (b'/' ∷ host_dir) command
          ≡ contained ++ (image ∷ command.args))
      × (value_behind network contained
          ≡ (if command.limits.network then none else some (lit "none")))
unfolding run_args docker_args
network_asked use_cg box_id image bytes host_dir meta_path command = (
  refl,
  run_options-network use_cg box_id (b'/' ∷ host_dir) meta_path command.limits,
  regrouped (fixed_args (container_name bytes) (b'/' ∷ host_dir)) (network_args command.limits)
      (pids_args command.limits) (memory_args command.limits) (image ∷ command.args),
  options-network bytes host_dir command.limits,
)
  where
    regrouped : (a b c d e : List Str) → a ++ (b ++ (c ++ (d ++ e))) ≡ (a ++ (b ++ (c ++ d))) ++ e
    regrouped a b c d e = sym (
        append_assoc a (b ++ (c ++ d)) e
        ∙ ap (◌++◌ a) (append_assoc b (c ++ d) e ∙ ap (◌++◌ b) (append_assoc c d e)))
