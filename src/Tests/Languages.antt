-- ===== src/Tests/Languages.antt =====
-- A catalog of one language.
use batasd.Language.{sorted}
use batasd.Common.Str.{str_eq}
use batasd.Common.Errors.{or_fail}
use batasd.Common.Errors.{fail_if}
use batasd.Common.{[], ◌∷◌, none, some, ◌≡◌, refl, true}
use batasd.Common.Str.{Str, lit}
use batasd.Common.Errors.{ok, err, Error}
use batasd.Language.{Version, Language, Runtime, Registry, load_catalog, get, resolve}
use batasd.Language.Lookup.{IsRuntimeOf, resolve-IsRuntimeOf, resolve_default}
use batasd.Tests.Fixtures.{runtime}

abbrev version : Version
version = record {
  version = lit "17";
  source_file = lit "main.c";
  compile = lit "cc" ∷ lit "main.c" ∷ [];
  run = lit "./a.out" ∷ [];
  default_limits = none;
  enabled = true;
}

abbrev language : Language
language = record {
  slug = lit "c";
  name = lit "C";
  default_version = lit "17";
  versions = version ∷ [];
  enabled = true;
}

abbrev pub registry : Registry
registry = record { by_slug = (lit "c", language) ∷ []; list = language ∷ [] }

abbrev quote : Str → Str
quote s = s

loaded : load_catalog quote (language ∷ []) ≡ ok registry
unfolding load_catalog fail_if or_fail str_eq sorted
loaded = refl

duplicate_test :
    load_catalog quote (language ∷ language ∷ [])
    ≡ err (Error.other (lit "duplicate language slug c"))
unfolding load_catalog fail_if or_fail str_eq
duplicate_test = refl

found : get registry (lit " c ") ≡ some language
unfolding get str_eq
found = refl

resolved : resolve registry (lit "c") (lit "17") ≡ some runtime
unfolding resolve str_eq
resolved = refl

resolve-IsRuntimeOf_example :
    (lang : Language) × (get registry (lit "c") ≡ some lang) × IsRuntimeOf lang (lit "17") runtime
resolve-IsRuntimeOf_example = resolve-IsRuntimeOf registry (lit "c") (lit "17") runtime resolved

resolve_default_example :
    (rt : Runtime) × (resolve registry (lit " c ") [] ≡ some rt) × (rt.version ≡ lit "17")
resolve_default_example =
    resolve_default quote (language ∷ []) registry loaded (lit " c ") language found refl
