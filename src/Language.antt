-- ===== src/Language.antt =====
-- internal/language/registry.go: the language catalog. The embedded JSON file enters as the list of
-- languages that encoding/json decodes it to, and `%q` as a function on strings.
pub mod Sorting
pub mod Validated
pub mod Lookup
use batasd.Common.{
  ℕ, Bool, true, false, ◌&&◌, ◌||◌, not, List, [], ◌∷◌, ◌++◌, Option, none, some, if◌then◌else◌,
  map, ltb, ◌==◌, is_some,
}
use mathlib.Core.Option
use batasd.Common.Int.{ℤ, pos, ltb_ℤ}
use batasd.Common.Str.{Str, lit, str_eq, is_empty, trim_space}
use batasd.Common.Errors.{Error, other, wrap, Result, ok, err, ◌>>=◌, ◌>>◌, fail_if, or_fail}
use batasd.Submission.Limits.{LimitOverrides}
use Sorting.{sort_by}

pub record Version : Type 0 where
  pub version : Str
  pub source_file : Str
  pub compile : List Str
  pub run : List Str
  pub default_limits : Option LimitOverrides
  pub enabled : Bool

pub record Language : Type 0 where
  pub slug : Str
  pub name : Str
  pub default_version : Str
  pub versions : List Version
  pub enabled : Bool

pub record Runtime : Type 0 where
  pub slug : Str
  pub name : Str
  pub version : Str
  pub source_file : Str
  pub compile : List Str
  pub run : List Str
  pub default_limits : Option LimitOverrides

-- A Go map by string keys, the latest key first.
unfoldable pub lookup : {A : Type 0} → Str → List (Str × A) → Option A
lookup key [] = none
lookup key ((k, value) ∷ entries) = if str_eq k key then some value else lookup key entries

pub record Registry : Type 0 where
  pub by_slug : List (Str × Language)
  pub list : List Language

abbrev negative : ℤ → Str → Result (Unit {0})
negative value name = fail_if (ltb_ℤ value (pos 0)) (other (name ++ lit " cannot be negative"))

unfoldable pub validate_overrides : Option LimitOverrides → Result (Unit {0})
validate_overrides none = ok tt
validate_overrides (some limits) = do
  negative limits.cpu_time_ms (lit "cpu_time_ms")
  negative limits.cpu_extra_ms (lit "cpu_extra_time_ms")
  negative limits.wall_time_ms (lit "wall_time_ms")
  negative limits.memory_kb (lit "memory_kb")
  negative limits.stack_kb (lit "stack_kb")
  negative limits.max_processes (lit "max_processes")
  negative limits.max_output_kb (lit "max_output_kb")
  negative limits.max_file_kb (lit "max_file_kb")
  negative limits.runs (lit "runs")
  ok tt

unfoldable pub wrap_error : Str → Result (Unit {0}) → Result (Unit {0})
wrap_error prefix (ok _) = ok tt
wrap_error prefix (err e) = err (wrap prefix e)

abbrev pub no_command : List Str → Bool
no_command [] = true
no_command (word ∷ words) = false

abbrev pub no_versions : List Version → Bool
no_versions [] = true
no_versions (v ∷ vs) = false

-- sort.Slice on the versions of a language.
unfoldable pub sorted : Language → Language
unfolding sort_by
sorted lang = record lang { versions = sort_by (λ v. v.version) lang.versions }

module _ (quote : Str → Str) where
  abbrev language_of : Str → Str
  language_of slug = lit "language " ++ quote slug

  abbrev version_of : Str → Str → Str
  version_of slug version = language_of slug ++ (lit " version " ++ quote version)

  -- One round of the inner loop, with the versions so far.
  unfoldable pub check_version :
      Str → List (Str × Version) → Version → Result (List (Str × Version))
  unfolding validate_overrides lookup wrap_error
  check_version slug versions v = do
    fail_if (is_empty v.version) (other (language_of slug ++ lit " version cannot be empty"))
    fail_if (is_empty v.source_file)
        (other (version_of slug v.version ++ lit " source_file cannot be empty"))
    fail_if (v.enabled && no_command v.run)
        (other (version_of slug v.version ++ lit " run command cannot be empty"))
    wrap_error (version_of slug v.version ++ lit " default_limits: ")
        (validate_overrides v.default_limits)
    fail_if (is_some (lookup v.version versions))
        (other (lit "duplicate " ++ version_of slug v.version))
    ok ((v.version, v) ∷ versions)

  -- The inner loop, from the versions so far.
  unfoldable pub check_versions :
      Str → List (Str × Version) → List Version → Result (List (Str × Version))
  unfolding check_version
  check_versions slug versions [] = ok versions
  check_versions slug versions (v ∷ vs) =
      check_version slug versions v >>= λ versions'. check_versions slug versions' vs

  -- The first tests on a language.
  unfoldable pub check_header : Language → Result (Unit {0})
  check_header lang = do
    fail_if (is_empty lang.slug) (other (lit "language slug cannot be empty"))
    fail_if (is_empty lang.name) (other (language_of lang.slug ++ lit " name cannot be empty"))
    fail_if (is_empty lang.default_version)
        (other (language_of lang.slug ++ lit " default_version cannot be empty"))
    fail_if (no_versions lang.versions)
        (other (language_of lang.slug ++ lit " versions cannot be empty"))

  -- The tests on the default version, once the versions have passed.
  unfoldable pub find_default : Language → List (Str × Version) → Result Version
  find_default lang versions = or_fail (lookup lang.default_version versions) (
      other (
        language_of lang.slug
        ++ (lit " default_version " ++ (quote lang.default_version ++ lit " is not defined"))))

  unfoldable pub check_default : Language → Version → Result (Unit {0})
  check_default lang chosen = fail_if (lang.enabled && not chosen.enabled) (
      other (
        language_of lang.slug
        ++ (lit " default_version " ++ (quote lang.default_version ++ lit " is not enabled"))))

  -- One round of the outer loop, with the languages so far.
  unfoldable pub check_language : List (Str × Language) → Language → Result (List (Str × Language))
  unfolding check_versions sort_by check_header find_default check_default
  check_language by_slug lang = do
    check_header lang
    versions ← check_versions lang.slug [] lang.versions
    chosen ← find_default lang versions
    check_default lang chosen
    fail_if (is_some (lookup lang.slug by_slug))
        (other (lit "duplicate language slug " ++ quote lang.slug))
    ok ((lang.slug, sorted lang) ∷ by_slug)

  unfoldable pub check_languages :
      List (Str × Language) → List Language → Result (List (Str × Language))
  unfolding check_language
  check_languages by_slug [] = ok by_slug
  check_languages by_slug (lang ∷ langs) =
      check_language by_slug lang >>= λ by_slug'. check_languages by_slug' langs

  -- The versions are sorted in place, so they are sorted in the list of languages too.
  unfoldable pub load_catalog : List Language → Result Registry
  unfolding check_languages sort_by
  load_catalog languages = do
    by_slug ← check_languages [] languages
    ok (record { by_slug = by_slug; list = sort_by (λ lang. lang.slug) (map sorted languages) })

-- The languages of the catalog; copying the slices of versions changes no value.
unfoldable pub list_languages : Registry → List Language
list_languages r = r.list

unfoldable pub get : Registry → Str → Option Language
unfolding lookup trim_space
get r slug = lookup (trim_space slug) r.by_slug

abbrev pub runtime_of : Language → Version → Runtime
runtime_of lang v = record {
  slug = lang.slug;
  name = lang.name;
  version = v.version;
  source_file = v.source_file;
  compile = v.compile;
  run = v.run;
  default_limits = v.default_limits;
}

-- The loop over the candidates.
unfoldable pub find_version : Str → List Version → Option Version
find_version version [] = none
find_version version (v ∷ vs) =
    if str_eq v.version version && v.enabled then some v else find_version version vs

abbrev pub or_default : Str → Str → Str
or_default version default = if is_empty version then default else version

abbrev pub resolve_in : Option Language → Str → Option Runtime
resolve_in none version = none
resolve_in (some lang) version =
    if not lang.enabled
    then none
    else Option.map (runtime_of lang)
        (find_version (or_default (trim_space version) lang.default_version) lang.versions)

unfoldable pub resolve : Registry → Str → Str → Option Runtime
unfolding lookup trim_space find_version
resolve r slug version = resolve_in (lookup (trim_space slug) r.by_slug) version
