-- ===== src/Submission/Service/Laws.antt =====
-- What the operations of internal/submission/service.go have checked and done when they succeed.
use batasd.Common.{
  ◌↔◌, Bool-cases, List, Bool, true, false, ◌&&◌, not, [], ◌∷◌, Option, none, some, ◌≡◌, ◌⊎◌, inl,
  inr, refl, ap, ◌∙◌, subst, arith,
}
use batasd.Common.Int.{ℤ, pos, negsuc, ltb_ℤ}
use batasd.Common.Str.{str_eq, Str, lit, str_eq_iff, is_empty, trim_space}
use batasd.Common.Errors.{ok, fail_if-eq-ok, or_fail-eq-ok, >>-eq-ok, >>=-eq-ok, ok_value}
use batasd.Common.Effects.{continue_with-eq-ok, ok-injective, with_world}
use batasd.Submission.Model.{
  Callback, Limits, AdditionalFiles, CreateRequest, ListQuery, ListResult, Submission,
}
use batasd.Submission.Limits.{merge_language_limits}
use batasd.Submission.Backend.{Address, Backend}
use batasd.Submission.Service.Checks.{
  check_callback, validate_callback_url, callback_url, safe_string_slice, check_files,
  check_request, choose_limits, new_submission, clamp_limit, check_language, check_query,
}
use batasd.Submission.Service.{create, list}
use batasd.Language.{Registry, Language, Runtime, get, resolve}
use batasd.Status.{queued, valid}

abbrev pub IsZip : Option AdditionalFiles → Type 0
IsZip none = Unit
IsZip (some files) =
    (trim_space files.encoding ≡ lit "zip_base64") × (is_empty (trim_space files.content) ≡ false)

-- A callback URL that is not blank parses, has the scheme http or https, and has a host.
abbrev pub IsCallback : (Str → Option Address) → Option Callback → Type 0
IsCallback parse none = Unit
IsCallback parse (some callback) =
    (is_empty (trim_space callback.url) ≡ true)
    ⊎ ((parsed : Address) × (parse callback.url ≡ some parsed)
        × ((parsed.scheme ≡ lit "https") ⊎ (parsed.scheme ≡ lit "http"))
        × (is_empty parsed.host ≡ false))

-- A request that Create takes, and the language family and the runtime that it names.
pub record IsValidRequest (parse : Str → Option Address) (languages : Registry)
    (req : CreateRequest) (lang : Runtime) : Type 0 where
  pub has_source : is_empty (trim_space req.source) ≡ false
  pub has_language : is_empty (trim_space req.language) ≡ false
  pub family : Language
  pub found : get languages (trim_space req.language) ≡ some family
  pub enabled : family.enabled ≡ true
  pub resolves :
      resolve languages (trim_space req.language) (trim_space req.language_version) ≡ some lang
  pub called_back : IsCallback parse req.callback
  pub zipped : IsZip req.additional_files

-- The URL that a request is called back at.
abbrev pub IsTarget : Option Callback → Str → Type 0
IsTarget callback url =
    (c : Callback) × (callback ≡ some c) × (url ≡ trim_space c.url) × (is_empty url ≡ false)

-- A list that may be missing, and is then empty.
abbrev pub IsSlice : Option (List Str) → List Str → Type 0
IsSlice values slice = (values ≡ some slice) ⊎ ((values ≡ none) × (slice ≡ []))

-- The submission has what the request asked for: its texts and files as they are, the trimmed URL
-- unless that is blank, and empty lists for those that are missing.
pub record IsAsked (req : CreateRequest) (sub : Submission) : Type 0 where
  pub source : sub.source ≡ req.source
  pub input : sub.input ≡ req.input
  pub expected : sub.expected_output ≡ req.expected_output
  pub arguments : IsSlice req.arguments sub.arguments
  pub options : IsSlice req.compiler_options sub.compiler_options
  pub files : sub.additional_files ≡ req.additional_files
  pub called_back : (url : Str) → (sub.callback_url ≡ some url) ↔ IsTarget req.callback url

safe_string_slice-IsSlice : (values : Option (List Str)) → IsSlice values (safe_string_slice values)
unfolding safe_string_slice
safe_string_slice-IsSlice none = inr (refl, refl)
safe_string_slice-IsSlice (some values) = inl refl

callback_url_iff :
    (callback : Option Callback) (url : Str)
    → (callback_url callback ≡ some url) ↔ IsTarget callback url
unfolding callback_url
callback_url_iff none url = (λ h. cc, λ (c, e, f, g). cc)
callback_url_iff (some callback) url = elim (Bool-cases (is_empty (trim_space callback.url))) [
  | inl blank ↦ rw (blank, callback_url) (λ h. cc, λ (c, e, f, g). cc)
  | inr given ↦ rw (given, callback_url) (λ h. (callback, refl, cc, cc), λ (c, e, f, g). cc)
]

holds_of_not : (test : Bool) → not test ≡ false → test ≡ true
holds_of_not true h = refl
holds_of_not false h = cc

check_files-IsZip : (files : Option AdditionalFiles) → check_files files ≡ ok tt → IsZip files
unfolding check_files
check_files-IsZip none h = tt
check_files-IsZip (some files) h =
    let (c1, h1) = >>-eq-ok _ _ h in
    let (c2, _) = >>-eq-ok _ _ h1 in
    (
      (str_eq_iff (trim_space files.encoding) (lit "zip_base64")).0
          (holds_of_not _ (fail_if-eq-ok _ _ c1)),
      fail_if-eq-ok _ _ c2,
    )

scheme_known :
    (scheme : Str)
    → (not (str_eq scheme (lit "https")) && not (str_eq scheme (lit "http"))) ≡ false
    → (scheme ≡ lit "https") ⊎ (scheme ≡ lit "http")
scheme_known scheme h = elim (Bool-cases (str_eq scheme (lit "https"))) [
  | inl secure ↦ inl ((str_eq_iff scheme (lit "https")).0 secure)
  | inr other ↦ inr ((str_eq_iff scheme (lit "http")).0 (holds_of_not _ (rw other at h)))
]

address-IsKnown :
    (o : Option Address)
    → validate_callback_url o ≡ ok tt
    → (parsed : Address) × (o ≡ some parsed)
      × ((parsed.scheme ≡ lit "https") ⊎ (parsed.scheme ≡ lit "http"))
      × (is_empty parsed.host ≡ false)
unfolding validate_callback_url
address-IsKnown none h = cc
address-IsKnown (some parsed) h =
    let (c1, h1) = >>-eq-ok _ _ h in
    let (c2, _) = >>-eq-ok _ _ h1 in
    (parsed, refl, scheme_known parsed.scheme (fail_if-eq-ok _ _ c1), fail_if-eq-ok _ _ c2)

check_callback-IsCallback :
    (parse : Str → Option Address) (callback : Option Callback)
    → check_callback parse callback ≡ ok tt
    → IsCallback parse callback
unfolding check_callback
check_callback-IsCallback parse none h = tt
check_callback-IsCallback parse (some callback) h =
    elim (Bool-cases (is_empty (trim_space callback.url))) [
      | inl blank ↦ inl blank
      | inr given ↦ inr (address-IsKnown (parse callback.url) (rw given at h))
    ]

pub check_request-IsValidRequest :
    (parse : Str → Option Address) (languages : Registry) (req : CreateRequest) {lang : Runtime}
    → check_request parse languages req ≡ ok lang
    → IsValidRequest parse languages req lang
unfolding check_request
check_request-IsValidRequest parse languages req {lang} h =
    let (c1, h1) = >>-eq-ok _ _ h in
    let (c2, h2) = >>-eq-ok _ _ h1 in
    let (family, c3, h3) = >>=-eq-ok _ _ h2 in
    let (c4, h4) = >>-eq-ok _ _ h3 in
    let (runtime, c5, h5) = >>=-eq-ok _ _ h4 in
    let (c6, h6) = >>-eq-ok _ _ h5 in
    let (c7, h7) = >>-eq-ok _ _ h6 in
    let same : runtime ≡ lang = ok_value h7 in
    record {
      has_source = fail_if-eq-ok _ _ c1;
      has_language = fail_if-eq-ok _ _ c2;
      family = family;
      found = or_fail-eq-ok _ _ c3;
      enabled = holds_of_not _ (fail_if-eq-ok _ _ c4);
      resolves = or_fail-eq-ok _ _ c5 ∙ ap some same;
      called_back = check_callback-IsCallback parse req.callback c6;
      zipped = check_files-IsZip req.additional_files c7;
    }

module _ {W : Type 0} (b : Backend W) where
  -- What a successful Create has done.
  pub record Created (languages : Registry) (defaults max : Limits) (req : CreateRequest)
      (sub : Submission) (after : W) : Type 0 where
    pub lang : Runtime
    pub requested : IsValidRequest b.parse_url languages req lang
    pub limited :
        choose_limits (merge_language_limits defaults lang.default_limits) max req.limits
        ≡ ok sub.limits
    pub asked : IsAsked req sub
    pub runs_on : (sub.language ≡ lang.slug) × (sub.language_version ≡ lang.version)
    pub waits : sub.status_code ≡ queued
    pub before : W
    pub between : W
    pub stored : b.repo.create sub before ≡ (ok tt, between)
    pub enqueued : b.enqueue sub.token between ≡ (ok tt, after)

  -- A Create that succeeds had a request with source text and an enabled language, whose version
  -- resolves, whose callback URL, unless it is blank, parses, has the scheme http or https and has a
  -- host, and whose files, if it has any, are declared as zip_base64 and not blank. The submission has
  -- the texts, lists and files of the request, and its trimmed callback URL unless it is blank; its
  -- limits are those that are chosen from the defaults, the language and the request; and its last two
  -- steps stored the submission, queued, and put its token on the queue.
  pub create-Created :
      (languages : Registry) (defaults max : Limits) (req : CreateRequest) (w w' : W)
      (sub : Submission)
      → create b languages defaults max req w ≡ (ok sub, w')
      → Created languages defaults max req sub w'
  unfolding create new_submission
  create-Created languages defaults max req w w' sub h =
      let (lang, c1, h1) = continue_with-eq-ok _ _ _ h in
      let (at, c2, h2) = continue_with-eq-ok _ _ _ h1 in
      let (limits, c3, h3) = continue_with-eq-ok _ _ _ h2 in
      let (token, c4, h4) = continue_with-eq-ok _ _ _ h3 in
      let (done, c5, h5) = continue_with-eq-ok _ _ _ h4 in
      let (queued_up, c6, h6) = continue_with-eq-ok _ _ _ h5 in
      subst (λ (r : Submission × W). Created languages defaults max req r.0 r.1)
        (λ i. (ok-injective h6 i, (h6 i).1))
        (record {
          lang = lang;
          requested = check_request-IsValidRequest b.parse_url languages req c1;
          limited = c3;
          asked = record {
            source = refl;
            input = refl;
            expected = refl;
            arguments = safe_string_slice-IsSlice req.arguments;
            options = safe_string_slice-IsSlice req.compiler_options;
            files = refl;
            called_back = callback_url_iff req.callback;
          };
          runs_on = (refl, refl);
          waits = refl;
          before = _;
          between = _;
          stored = with_world _ c5;
          enqueued = with_world _ c6;
        })

-- What List asks the repository for.
pub record IsPageQuery (languages : Registry) (query : ListQuery) : Type 0 where
  pub at_least : ltb_ℤ query.limit (pos 1) ≡ false
  pub at_most : ltb_ℤ (pos 100) query.limit ≡ false
  pub status_known : (is_empty query.status_code ≡ true) ⊎ (valid query.status_code ≡ true)
  pub language_known :
      (query.language ≡ []) ⊎ ((lang : Language) × (get languages query.language ≡ some lang))

clamp_limit-le : (limit : ℤ) → ltb_ℤ (pos 100) (clamp_limit limit) ≡ false
unfolding clamp_limit
clamp_limit-le (pos n) = ground arith
clamp_limit-le (negsuc n) = ground arith

status_known :
    (empty known : Bool) → (not empty && not known) ≡ false → (empty ≡ true) ⊎ (known ≡ true)
status_known true known h = inl refl
status_known false true h = inr refl
status_known false false h = cc

check_language-known :
    (languages : Registry) (slug : Str)
    → check_language languages slug ≡ ok tt
    → (slug ≡ []) ⊎ ((lang : Language) × (get languages slug ≡ some lang))
unfolding check_language
check_language-known languages [] h = inl refl
check_language-known languages (a ∷ slug) h =
    let (lang, c, _) = >>=-eq-ok _ _ h in inr (lang, or_fail-eq-ok _ _ c)

pub check_query-IsPageQuery :
    (languages : Registry) (query q : ListQuery)
    → check_query languages query ≡ ok q
    → IsPageQuery languages q
unfolding check_query
check_query-IsPageQuery languages query q h =
    let (c1, h1) = >>-eq-ok _ _ h in
    let (c2, h2) = >>-eq-ok _ _ h1 in
    let (c3, h3) = >>-eq-ok _ _ h2 in
    let built : IsPageQuery languages (record {
      limit = clamp_limit query.limit;
      before_token = trim_space query.before_token;
      status_code = trim_space query.status_code;
      language = trim_space query.language;
    }) =
      record {
        at_least = fail_if-eq-ok _ _ c1;
        at_most = clamp_limit-le query.limit;
        status_known = status_known _ _ (fail_if-eq-ok _ _ c2);
        language_known = check_language-known languages _ c3;
      } in
    subst (IsPageQuery languages) (ok_value h3) built

-- A List that succeeds is one page query of the repository: its limit is from 1 to 100, its status
-- is empty or public, and its language is empty or in the registry.
pub list-IsPageQuery :
    {W : Type 0} (b : Backend W) (languages : Registry) (query : ListQuery) (w w' : W)
    (page : ListResult)
    → list b languages query w ≡ (ok page, w')
    → (q : ListQuery) × (v : W) × IsPageQuery languages q × (b.repo.list q v ≡ (ok page, w'))
unfolding list
list-IsPageQuery b languages query w w' page h =
    let (q, c1, h1) = continue_with-eq-ok _ _ _ h in
    let (seen, c2, h2) = continue_with-eq-ok _ _ _ h1 in
    (q, _, check_query-IsPageQuery languages query q c1, h2)
