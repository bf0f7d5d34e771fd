-- ===== src/Execution/Paths.antt =====
-- safeZipTarget of internal/execution/engine.go, and what it uses of packages path and filepath
-- on Unix, where the separator is a slash and filepath.FromSlash changes nothing.
pub mod Clean
pub mod Confined
use batasd.Common.{
  ℕ, Bool, true, false, ◌||◌, ◌&&◌, not, List, [], ◌∷◌, ◌++◌, reverse, if◌then◌else◌, ◌==◌, any,
  ltb, ◌≡◌, refl,
}
use batasd.Common.Str.{Str, lit, str_eq, is_empty}
use batasd.Common.Errors.{Error, other, ok, err}
use batasd.Common.Effects.{Io, ◌>>=◌, lift, return}
use batasd.Execution.Machine.{Machine}

abbrev pub push_front : ℕ → List Str → List Str
push_front c [] = (c ∷ []) ∷ []
push_front c (part ∷ parts) = (c ∷ part) ∷ parts

-- The parts of a path, between its slashes.
unfoldable pub split_slash : Str → List Str
split_slash [] = [] ∷ []
split_slash (c ∷ s) =
    let parts = split_slash s in if c == b'/' then [] ∷ parts else push_front c parts

unfoldable pub join_slash : List Str → Str
join_slash [] = []
join_slash (part ∷ []) = part
join_slash (part ∷ next ∷ parts) = part ++ (b'/' ∷ join_slash (next ∷ parts))

-- `..` takes a part back, is kept where there is none, and stops at the root.
abbrev pub step_back : Bool → List Str → List Str
step_back true [] = []
step_back false [] = lit ".." ∷ []
step_back rooted (part ∷ stack) = if str_eq part (lit "..") then lit ".." ∷ part ∷ stack else stack

-- One part, over the parts so far, the last of them first.
unfoldable pub clean_part : Bool → List Str → Str → List Str
clean_part rooted stack part =
    if is_empty part || str_eq part (lit ".")
    then stack
    else if str_eq part (lit "..")
    then step_back rooted stack
    else part ∷ stack

unfoldable pub clean_parts : Bool → List Str → List Str → List Str
unfolding clean_part
clean_parts rooted stack [] = reverse stack
clean_parts rooted stack (part ∷ parts) = clean_parts rooted (clean_part rooted stack part) parts

-- path.IsAbs.
unfoldable pub is_abs : Str → Bool
is_abs [] = false
is_abs (c ∷ s) = c == b'/'

abbrev pub print_path : Bool → List Str → Str
print_path true parts = b'/' ∷ join_slash parts
print_path false [] = lit "."
print_path false (part ∷ parts) = join_slash (part ∷ parts)

-- path.Clean and filepath.Clean.
unfoldable pub path_clean : Str → Str
unfolding is_abs clean_parts split_slash join_slash
path_clean s = print_path (is_abs s) (clean_parts (is_abs s) [] (split_slash s))

-- strings.HasPrefix.
unfoldable pub has_prefix : Str → Str → Bool
has_prefix s [] = true
has_prefix [] (c ∷ p) = false
has_prefix (a ∷ s) (c ∷ p) = a == c && has_prefix s p

-- filepath.Join of two paths, of which the first is not empty.
unfoldable pub join_path : Str → Str → Str
unfolding path_clean
join_path root name = path_clean (root ++ (b'/' ∷ name))

-- The cleaned names that are refused.
unfoldable pub is_forbidden : Str → Bool
unfolding is_abs has_prefix
is_forbidden clean =
    str_eq clean (lit ".")
    || str_eq clean (lit "..")
    || is_abs clean
    || has_prefix clean (lit "../")

module _ {W : Type 0} (m : Machine W) where
  -- filepath.Abs.
  unfoldable pub abs_path : Str → Io W Str
  unfolding path_clean join_path is_abs
  abs_path path =
      if is_abs path
      then return (path_clean path)
      else (m.getwd >>= λ dir. return (join_path dir path))

  abbrev pub not_allowed : Str → Str → Error
  not_allowed name what = other (lit "additional_files path " ++ (m.quote name ++ what))

  -- The target and the cleaned name, or the refusal.
  unfoldable pub within_root : Str → Str → Str → Str → Io W (Str × Str)
  unfolding has_prefix
  within_root root name clean target =
      if not (str_eq target root) && not (has_prefix target (root ++ lit "/"))
      then lift (err (not_allowed name (lit " escapes the execution directory")))
      else return (target, clean)

  unfoldable pub safe_zip_target : Str → Str → Io W (Str × Str)
  unfolding is_forbidden path_clean join_path abs_path within_root
  safe_zip_target root name =
      if is_empty name
      then lift (err (other (lit "additional_files contains an empty path")))
      else if any (λ c. c == b'\\') name
      then lift (err (not_allowed name (lit " cannot contain backslashes")))
      else if is_forbidden (path_clean name)
      then lift (err (not_allowed name (lit " is not allowed")))
      else (abs_path (join_path root (path_clean name)) >>= λ target.
          within_root root name (path_clean name) target)

path_clean_test : path_clean (lit "a/./b//../c/") ≡ lit "a/c"
unfolding path_clean str_eq
path_clean_test = refl
