-- ===== src/Language/Validated.antt =====
-- The catalogs that LoadCatalog of internal/language/registry.go accepts.
use mathlib.Core.List.{Memᴰ}
use batasd.Common.{
  true, false, ◌&&◌, not, List, [], ◌∷◌, some, ◌≡◌, ◌≢◌, refl, sym, arith, All, Bool-cases, inl,
  inr, is_some,
}
use batasd.Common.Str.{Str, str_eq, str_eq_iff}
use batasd.Common.Errors.{Result, ok, fail_if, >>-eq-ok, >>=-eq-ok, fail_if-eq-ok, or_fail-eq-ok}
use batasd.Language.Sorting.{sort_by-Memᴰ, sort_by-All}
use batasd.Language.{
  Version, Language, Registry, lookup, no_command, sorted, check_version, check_versions,
  check_header, find_default, check_default, check_language, check_languages, load_catalog,
}

-- An enabled version has a command.
abbrev pub IsRunnable : Version → Type 0
IsRunnable v = v.enabled ≡ true → v.run ≢ []

pub record IsValidated (lang : Language) : Type 0 where
  pub runnable : All IsRunnable lang.versions
  pub default :
      lang.enabled ≡ true
      → (v : Version) × Memᴰ v lang.versions
        × (v.version ≡ lang.default_version)
        × (v.enabled ≡ true)

pub lookup-All :
    {A : Type 0} (P : Str → A → Type 0) (key : Str) (entries : List (Str × A)) (a : A)
    → All (λ e. P e.0 e.1) entries
    → lookup key entries ≡ some a
    → P key a
unfolding lookup
lookup-All {A} P key [] a all e = absurd (cc)
lookup-All {A} P key ((k, value) ∷ entries) a all e = elim (Bool-cases (str_eq k key)) [
  | inl same ↦
      let found : value ≡ a = (let f : some value ≡ some a = rw (same, lookup) at e in cc) in
      subst2 P ((str_eq_iff k key).0 same) found all.0
  | inr differs ↦ lookup-All P key entries a all.1 (rw (differs, lookup) at e)
]
  where
    subst2 : (Q : Str → A → Type 0) {k j : Str} {x y : A} → k ≡ j → x ≡ y → Q k x → Q j y
    subst2 Q p q h = rw (← p, ← q) h

All-Memᴰ : {A : Type 0} (xs : List A) → All (λ x. Memᴰ x xs) xs
All-Memᴰ [] = tt
All-Memᴰ {A} (x ∷ xs) = (Memᴰ.head refl, weaken xs (All-Memᴰ xs))
  where
    weaken : (ys : List A) → All (λ y. Memᴰ y xs) ys → All (λ y. Memᴰ y (x ∷ xs)) ys
    weaken [] a = tt
    weaken (y ∷ ys) a = (Memᴰ.tail a.0, weaken ys a.1)

-- The versions of a language that have passed, with their names as keys.
abbrev IsListed : List Version → Str × Version → Type 0
IsListed vs (name, v) = (name ≡ v.version) × Memᴰ v vs

-- What an entry of a table of checked languages has.
abbrev pub IsChecked : Str × Language → Type 0
IsChecked (slug, lang) = (slug ≡ lang.slug) × IsValidated lang

module _ (quote : Str → Str) where
  check_version-lem :
      (slug : Str) (versions versions' : List (Str × Version)) (v : Version)
      → check_version quote slug versions v ≡ ok versions'
      → IsRunnable v × (versions' ≡ (v.version, v) ∷ versions)
  unfolding check_version
  check_version-lem slug versions versions' v e =
      let (_, e1) = >>-eq-ok _ _ e in
      let (_, e2) = >>-eq-ok _ _ e1 in
      let (command, e3) = >>-eq-ok _ _ e2 in
      let (_, e4) = >>-eq-ok _ _ e3 in
      let (_, e5) = >>-eq-ok _ _ e4 in
      let has_command : (v.enabled && no_command v.run) ≡ false = fail_if-eq-ok _ _ command in
      (λ enabled empty. cc (rw (enabled, empty) at has_command), listed e5)
    where
      listed :
          ◌≡◌ {A = Result (List (Str × Version))} (ok ((v.version, v) ∷ versions)) (ok versions')
          → versions' ≡ (v.version, v) ∷ versions
      listed h = cc

  check_versions-lem :
      (slug : Str) (all : List Version) (versions versions' : List (Str × Version))
      (vs : List Version)
      → All (IsListed all) versions
      → All (λ v. Memᴰ v all) vs
      → check_versions quote slug versions vs ≡ ok versions'
      → All IsRunnable vs × All (IsListed all) versions'
  unfolding check_versions
  check_versions-lem slug all versions versions' [] listed members e =
      let same : versions ≡ versions' = same_of e in (tt, rw same at listed)
    where
      same_of :
          ◌≡◌ {A = Result (List (Str × Version))} (ok versions) (ok versions')
          → versions ≡ versions'
      same_of h = cc
  check_versions-lem slug all versions versions' (v ∷ vs) listed members e =
      let (next, first, rest) = >>=-eq-ok (check_version quote slug versions v) _ e in
      let (runnable, grown) = check_version-lem slug versions next v first in
      let ih =
        check_versions-lem slug all next versions' vs (rw grown ((refl, members.0), listed))
          members.1 rest in
      ((runnable, ih.0), ih.1)

  find_default-lem :
      (lang : Language) (versions : List (Str × Version)) (chosen : Version)
      → All (IsListed lang.versions) versions
      → find_default quote lang versions ≡ ok chosen
      → IsListed lang.versions (lang.default_version, chosen)
  unfolding find_default
  find_default-lem lang versions chosen listed e =
      lookup-All (λ name v. IsListed lang.versions (name, v)) lang.default_version versions chosen
        listed (or_fail-eq-ok _ _ e)

  check_default-lem :
      (lang : Language) (chosen : Version)
      → check_default quote lang chosen ≡ ok tt
      → lang.enabled ≡ true
      → chosen.enabled ≡ true
  unfolding check_default
  check_default-lem lang chosen e enabled =
      let passed : (lang.enabled && not chosen.enabled) ≡ false = fail_if-eq-ok _ _ e in
      ground arith

  sorted-IsValidated :
      (lang : Language) (chosen : Version)
      → All IsRunnable lang.versions
      → IsListed lang.versions (lang.default_version, chosen)
      → (lang.enabled ≡ true → chosen.enabled ≡ true)
      → IsValidated (sorted lang)
  unfolding sorted
  sorted-IsValidated lang chosen runnable listed enabled = record {
    runnable = sort_by-All (λ v. v.version) IsRunnable lang.versions runnable;
    default = λ on. (
      chosen,
      sort_by-Memᴰ (λ v. v.version) chosen lang.versions listed.1,
      sym listed.0,
      enabled on,
    );
  }

  check_language-lem :
      (by_slug by_slug' : List (Str × Language)) (lang : Language)
      → check_language quote by_slug lang ≡ ok by_slug'
      → IsValidated (sorted lang) × (by_slug' ≡ (lang.slug, sorted lang) ∷ by_slug)
  unfolding check_language
  check_language-lem by_slug by_slug' lang e =
      let (_, e1) = >>-eq-ok (check_header quote lang) _ e in
      let (versions, checked, e2) =
        >>=-eq-ok (check_versions quote lang.slug [] lang.versions) _ e1 in
      let (chosen, found, e3) = >>=-eq-ok (find_default quote lang versions) _ e2 in
      let (enabled, e4) = >>-eq-ok (check_default quote lang chosen) _ e3 in
      let (_, e5) = >>-eq-ok (fail_if (is_some (lookup lang.slug by_slug)) _) _ e4 in
      let passed =
        check_versions-lem lang.slug lang.versions [] versions lang.versions tt
          (All-Memᴰ lang.versions) checked in
      let listed = find_default-lem lang versions chosen passed.1 found in
      (
        sorted-IsValidated lang chosen passed.0 listed (check_default-lem lang chosen enabled),
        same_of e5,
      )
    where
      same_of :
          ◌≡◌ {A = Result (List (Str × Language))}
            (ok ((lang.slug, sorted lang) ∷ by_slug))
            (ok by_slug')
          → by_slug' ≡ (lang.slug, sorted lang) ∷ by_slug
      same_of h = cc

  check_languages-lem :
      (by_slug by_slug' : List (Str × Language)) (langs : List Language)
      → All IsChecked by_slug
      → check_languages quote by_slug langs ≡ ok by_slug'
      → All IsChecked by_slug'
  unfolding check_languages sorted
  check_languages-lem by_slug by_slug' [] checked e = rw (same_of e) at checked
    where
      same_of :
          ◌≡◌ {A = Result (List (Str × Language))} (ok by_slug) (ok by_slug') → by_slug ≡ by_slug'
      same_of h = cc
  check_languages-lem by_slug by_slug' (lang ∷ langs) checked e =
      let (next, first, rest) = >>=-eq-ok (check_language quote by_slug lang) _ e in
      let (valid, grown) = check_language-lem by_slug next lang first in
      check_languages-lem next by_slug' langs (rw grown ((refl, valid), checked)) rest

  pub load_catalog-IsChecked :
      (languages : List Language) (r : Registry)
      → load_catalog quote languages ≡ ok r
      → All IsChecked r.by_slug
  unfolding load_catalog
  load_catalog-IsChecked languages r e =
      let (by_slug, checked, e1) = >>=-eq-ok (check_languages quote [] languages) _ e in
      let valid = check_languages-lem [] by_slug languages tt checked in
      let same : by_slug ≡ r.by_slug = of_registry by_slug _ e1 in rw same at valid
    where
      of_registry :
          (by_slug : List (Str × Language)) (list : List Language)
          → ◌≡◌ {A = Result Registry} (ok (record { by_slug = by_slug; list = list })) (ok r)
          → by_slug ≡ r.by_slug
      of_registry by_slug list h = ground arith
