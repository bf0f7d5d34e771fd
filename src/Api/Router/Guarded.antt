-- ===== src/Api/Router/Guarded.antt =====
-- Which requests reach the handlers of internal/httpapi/router.go.
use batasd.Common.{
  ℕ, Bool, true, false, List, [], ◌∷◌, ◌++◌, Option, some, All, ◌≡◌, ◌≢◌, refl, sym, subst, ap, ◌∙◌,
}
use batasd.Common.Str.{Str, lit}
use batasd.Api.Answers.{Answer}
use batasd.Api.Auth.{bearer_token, is_token, auth_middleware}
use batasd.Api.Auth.Passed.{IsGraphic, passed, refused}
use batasd.Api.Submissions.{Request}
use batasd.Api.Router.{
  Route, healthz, post_authenticate, get_languages, get_language, get_statuses, get_config,
  get_system, get_workers, get_submissions, post_submissions, get_submission_callbacks,
  get_one_submission, Dependencies, handle, serve,
}

abbrev pub is_public : Route → Bool
is_public healthz = true
is_public route = false

module _ {W : Type 0} (deps : Dependencies W) (fuel : ℕ) (header : Str) (r : Request) (w : W) where
  serve-guarded :
      (route : Route)
      → is_public route ≡ false
      → serve deps fuel route header r w
        ≡ auth_middleware deps.config.auth.tokens header (handle deps fuel route r) w
  unfolding serve
  serve-guarded healthz h = absurd (cc)
  serve-guarded post_authenticate h = refl
  serve-guarded get_languages h = refl
  serve-guarded (get_language slug) h = refl
  serve-guarded get_statuses h = refl
  serve-guarded get_config h = refl
  serve-guarded get_system h = refl
  serve-guarded get_workers h = refl
  serve-guarded get_submissions h = refl
  serve-guarded post_submissions h = refl
  serve-guarded get_submission_callbacks h = refl
  serve-guarded get_one_submission h = refl

-- When tokens are set, a request for any route but /healthz whose header has no bearer token, or one
-- that is not set, is answered with status 401 and changes nothing; and a request with the header
-- `Bearer` and a token that is set and made of printable bytes without spaces reaches its handler.
pub serve-Guarded :
    {W : Type 0} (deps : Dependencies W) (fuel : ℕ) (route : Route) (r : Request) (w : W) (t : Str)
    (tokens : List Str)
    → deps.config.auth.tokens ≡ t ∷ tokens
    → is_public route ≡ false
    → ((header : Str)
        → ((token : Str) → bearer_token header ≡ some token → is_token token (t ∷ tokens) ≡ false)
        → (answer : Answer) × (serve deps fuel route header r w ≡ (some answer, w))
          × (answer.status ≡ 401))
      × ((token : Str)
          → token ≢ []
          → All IsGraphic token
          → is_token token (t ∷ tokens) ≡ true
          → serve deps fuel route (lit "Bearer " ++ token) r w ≡ handle deps fuel route r w)
serve-Guarded {W} deps fuel route r w t tokens e private = (
  λ header none_set.
      subst
        (λ (run : Option Answer × W).
          (answer : Answer) × (run ≡ (some answer, w)) × (answer.status ≡ 401))
        (sym (guarded header)) (refused t tokens header (handle deps fuel route r) w none_set),
  λ token full g set.
      guarded (lit "Bearer " ++ token)
      ∙ passed (t ∷ tokens) token (handle deps fuel route r) w full g set,
)
  where
    guarded :
        (header : Str)
        → serve deps fuel route header r w
          ≡ auth_middleware (t ∷ tokens) header (handle deps fuel route r) w
    guarded header =
        serve-guarded deps fuel header r w route private
        ∙ ap (λ set. auth_middleware set header (handle deps fuel route r) w) e
