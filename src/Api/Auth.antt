-- ===== src/Api/Auth.antt =====
-- internal/httpapi/auth.go: bearer tokens.
pub mod Passed
use batasd.Common.{
  ℕ, Bool, true, false, ◌&&◌, ◌||◌, not, List, [], ◌∷◌, ◌++◌, reverse, Option, none, some,
  if◌then◌else◌, any, ◌≡◌, refl,
}
use batasd.Common.Str.{Str, lit, str_eq, is_empty, is_space1, is_space2, is_space3}
use batasd.Common.Strconv.{equal_fold}
use batasd.Api.Answers.{Answer, Body, write_error}

-- The field that was being read, whose bytes are kept in reverse, before the fields behind it.
abbrev end_field : Str → List Str → List Str
end_field [] fields = fields
end_field (c ∷ field) fields = reverse (c ∷ field) ∷ fields

-- strings.Fields, behind the bytes of a field that was begun.
unfoldable pub fields_from : Str → Str → List Str
unfolding is_space1 is_space2 is_space3
fields_from field [] = end_field field []
fields_from field (a ∷ []) = if is_space1 a then end_field field [] else end_field (a ∷ field) []
fields_from field (a ∷ b ∷ []) =
    let after1 = fields_from [] (b ∷ []) in
    let longer = fields_from (a ∷ field) (b ∷ []) in
    if is_space1 a
    then end_field field after1
    else if is_space2 a b
    then end_field field []
    else longer
fields_from field (a ∷ b ∷ c ∷ s) =
    let after1 = fields_from [] (b ∷ c ∷ s) in
    let after2 = fields_from [] (c ∷ s) in
    let after3 = fields_from [] s in
    let longer = fields_from (a ∷ field) (b ∷ c ∷ s) in
    if is_space1 a
    then end_field field after1
    else if is_space2 a b
    then end_field field after2
    else if is_space3 a b c
    then end_field field after3
    else longer

unfoldable pub fields : Str → List Str
unfolding fields_from
fields s = fields_from [] s

unfoldable pub token_of_parts : List Str → Option Str
unfolding equal_fold
token_of_parts (scheme ∷ token ∷ []) =
    if not (equal_fold scheme (lit "Bearer")) || is_empty token then none else some token
token_of_parts parts = none

unfoldable pub bearer_token : Str → Option Str
unfolding fields token_of_parts
bearer_token header = token_of_parts (fields header)

unfoldable pub write_auth_error : Str → Answer
unfolding write_error
write_auth_error bearer_error =
    record (write_error 401 (lit "unauthorized") (lit "invalid or missing bearer token")) {
      challenge = some (
          lit "Bearer realm=\"batasd\""
          ++ (if is_empty bearer_error
              then []
              else lit ", error=\"" ++ (bearer_error ++ lit "\"")));
    }

-- `cfg.Tokens[token]`: the set of tokens is its list.
abbrev pub is_token : Str → List Str → Bool
is_token token tokens = any (str_eq token) tokens

-- The error that AuthMiddleware answers with, or none when it hands the request on.
unfoldable pub refusal : List Str → Str → Option Answer
unfolding bearer_token write_auth_error
refusal [] header = none
refusal (t ∷ tokens) header = elim (bearer_token header) [
  | none ↦ some (write_auth_error [])
  | some token ↦
      if is_token token (t ∷ tokens) then none else some (write_auth_error (lit "invalid_token"))
]

unfoldable pub auth_middleware :
    {W : Type 0} → List Str → Str → (W → Option Answer × W) → W → Option Answer × W
unfolding refusal
auth_middleware tokens header next w = elim (refusal tokens header) [
  | some answer ↦ (some answer, w)
  | none ↦ next w
]

fields_test : fields (lit " Bearer  abc ") ≡ lit "Bearer" ∷ lit "abc" ∷ []
unfolding fields
fields_test = refl
