-- ===== src/Language/Lookup.antt =====
-- What Get and Resolve of internal/language/registry.go return.
use mathlib.Core.List.{Memᴰ}
use mathlib.Core.Option
use batasd.Common.{
  true, ◌&&◌, List, [], ◌∷◌, Option, none, some, ◌≡◌, ◌≢◌, refl, sym, arith, All, Bool-cases, inl,
  inr,
}
use batasd.Common.Str.{Str, str_eq, str_eq_iff, trim_space}
use batasd.Common.Errors.{ok}
use batasd.Language.{
  Version, Language, Runtime, Registry, lookup, get, runtime_of, find_version, or_default,
  resolve_in, resolve, load_catalog,
}
use batasd.Language.Validated.{
  IsRunnable, IsValidated, IsChecked, lookup-All, load_catalog-IsChecked,
}

find_version-eq-some :
    (name : Str) (vs : List Version) (v : Version)
    → find_version name vs ≡ some v
    → Memᴰ v vs × (v.version ≡ name) × (v.enabled ≡ true)
unfolding find_version
find_version-eq-some name [] v e = absurd (cc)
find_version-eq-some name (u ∷ vs) v e = elim (Bool-cases (str_eq u.version name && u.enabled)) [
  | inl fits ↦
      let same : some u ≡ some v = rw (fits, find_version) at e in
      let same' : v ≡ u = cc in
      (
        Memᴰ.head same',
        rw same' ((str_eq_iff u.version name).0 (ground arith)),
        rw same' (ground arith),
      )
  | inr not_it ↦
      let (m, n, on) = find_version-eq-some name vs v (rw (not_it, find_version) at e) in
      (Memᴰ.tail m, n, on)
]

find_version-Memᴰ :
    (name : Str) (vs : List Version) (v : Version)
    → Memᴰ v vs
    → v.version ≡ name
    → v.enabled ≡ true
    → (u : Version) × (find_version name vs ≡ some u)
unfolding find_version
find_version-Memᴰ name [] v m n on = elim m [ ]
find_version-Memᴰ name (u ∷ vs) v (Memᴰ.head e) n on =
    let named : str_eq u.version name ≡ true = (str_eq_iff u.version name).1 (rw e at n) in
    let enabled : u.enabled ≡ true = rw e at on in (u, rw (named, enabled, find_version))
find_version-Memᴰ name (u ∷ vs) v (Memᴰ.tail t) n on =
    let (w, later) = find_version-Memᴰ name vs v t n on in
    elim (Bool-cases (str_eq u.version name && u.enabled)) [
      | inl fits ↦ (u, rw (fits, find_version))
      | inr not_it ↦ (w, rw (not_it, find_version) later)
    ]

-- What a resolved runtime comes from.
pub record IsRuntimeOf (lang : Language) (version : Str) (rt : Runtime) : Type 0 where
  pub enabled : lang.enabled ≡ true
  pub chosen : Version
  pub listed : Memᴰ chosen lang.versions
  pub named : chosen.version ≡ or_default (trim_space version) lang.default_version
  pub usable : chosen.enabled ≡ true
  pub built : rt ≡ runtime_of lang chosen

-- `Resolve` returns a runtime only for a language that `Get` finds under the same slug, and builds
-- it from an enabled version of that enabled language: the version that is asked for, or the
-- default one where none is.
pub resolve-IsRuntimeOf :
    (r : Registry) (slug version : Str) (rt : Runtime)
    → resolve r slug version ≡ some rt
    → (lang : Language) × (get r slug ≡ some lang) × IsRuntimeOf lang version rt
unfolding resolve get
resolve-IsRuntimeOf r slug version rt e = found (lookup (trim_space slug) r.by_slug) refl e
  where
    found :
        (o : Option Language)
        → lookup (trim_space slug) r.by_slug ≡ o
        → resolve_in o version ≡ some rt
        → (lang : Language) × (lookup (trim_space slug) r.by_slug ≡ some lang)
          × IsRuntimeOf lang version rt
    found none s h = absurd (cc)
    found (some lang) s h = elim (Bool-cases lang.enabled) [
      | inl on ↦
          let (v, f, b) = (Option.map-eq-some_iff _ _).0 (rw on at h) in
          let (m, n, u) = find_version-eq-some _ lang.versions v f in
          (
            lang,
            s,
            record { enabled = on; chosen = v; listed = m; named = n; usable = u; built = sym b },
          )
      | inr off ↦ let none_found : none ≡ some rt = rw off at h in absurd (cc)
    ]

module _ (quote : Str → Str) (languages : List Language) (r : Registry)
    (loaded : load_catalog quote languages ≡ ok r) where
  get-IsValidated : (slug : Str) (lang : Language) → get r slug ≡ some lang → IsValidated lang
  unfolding get
  get-IsValidated slug lang e =
      (lookup-All (λ k l. IsChecked (k, l)) (trim_space slug) r.by_slug lang
        (load_catalog-IsChecked quote languages r loaded) e).1

  -- In a catalog that loads, an enabled language can be resolved with no version named.
  pub resolve_default :
      (slug : Str) (lang : Language)
      → get r slug ≡ some lang
      → lang.enabled ≡ true
      → (rt : Runtime) × (resolve r slug [] ≡ some rt) × (rt.version ≡ lang.default_version)
  unfolding resolve get
  resolve_default slug lang e on =
      let (v, listed, named, usable) = (get-IsValidated slug lang e).default on in
      let (u, f) = find_version-Memᴰ lang.default_version lang.versions v listed named usable in
      let (_, n, _) = find_version-eq-some lang.default_version lang.versions u f in
      (runtime_of lang u, rw (e, on, nothing_trimmed, f) refl, n)
    where
      nothing_trimmed : or_default (trim_space []) lang.default_version ≡ lang.default_version
      nothing_trimmed = refl

  resolvable : (vs : List Version) (v : Version) → All IsRunnable vs → Memᴰ v vs → IsRunnable v
  resolvable [] v a m = elim m [ ]
  resolvable (u ∷ vs) v a (Memᴰ.head e) = rw e a.0
  resolvable (u ∷ vs) v a (Memᴰ.tail t) = resolvable vs v a.1 t

  -- Every runtime that is resolved in a catalog that loads has a command to run.
  pub resolve-run :
      (slug version : Str) (rt : Runtime) → resolve r slug version ≡ some rt → rt.run ≢ []
  resolve-run slug version rt e =
      let (lang, got, built) = resolve-IsRuntimeOf r slug version rt e in
      let valid = get-IsValidated slug lang got in
      let command =
        resolvable lang.versions built.chosen valid.runnable built.listed built.usable in
      rw built.built command
