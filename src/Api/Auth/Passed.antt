-- ===== src/Api/Auth/Passed.antt =====
-- Which requests internal/httpapi/auth.go hands on.
use mathlib.Core.List.{reverse-reverse, reverse-cons, append_assoc, append-nil}
use batasd.Common.{
  Option-cases, ℕ, ◌≤◌, true, false, List, [], ◌∷◌, ◌++◌, reverse, Option, some, All, ◌≡◌, ◌≢◌,
  refl, sym, ◌∙◌, ap, inl, inr, arith,
}
use batasd.Common.Str.{Str, lit, is_empty, is_space1, is_space2, is_space3}
use batasd.Api.Answers.{write_json, write_error, Answer}
use batasd.Api.Auth.{
  write_auth_error, end_field, fields_from, fields, token_of_parts, bearer_token, is_token, refusal,
  auth_middleware,
}

-- Printable ASCII without the space.
abbrev pub IsGraphic : ℕ → Type 0
IsGraphic c = (33 ≤ c) × (c ≤ 126)

no_space :
    (a b c : ℕ)
    → IsGraphic a
    → (is_space1 a ≡ false) × (is_space2 a b ≡ false) × (is_space3 a b c ≡ false)
unfolding is_space1 is_space2 is_space3
no_space a b c g = (ground arith, ground arith, ground arith)

-- A graphic byte belongs to the field that is read, and a space ends it.
fields_from-graphic :
    (field s : Str) (a : ℕ) → IsGraphic a → fields_from field (a ∷ s) ≡ fields_from (a ∷ field) s
unfolding fields_from
fields_from-graphic field [] a g = rw ((no_space a 0 0 g).0) refl
fields_from-graphic field (b ∷ []) a g = rw ((no_space a b 0 g).0, (no_space a b 0 g).1) refl
fields_from-graphic field (b ∷ c ∷ s) a g =
    rw ((no_space a b c g).0, (no_space a b c g).1, (no_space a b c g).2) refl

fields_from-space :
    (field s : Str) → fields_from field (b' ' ∷ s) ≡ end_field field (fields_from [] s)
unfolding fields_from is_space1
fields_from-space field [] = refl
fields_from-space field (b ∷ []) = refl
fields_from-space field (b ∷ c ∷ s) = refl

fields_from-word :
    (field s rest : Str)
    → All IsGraphic s
    → fields_from field (s ++ rest) ≡ fields_from (reverse s ++ field) rest
fields_from-word field [] rest g = refl
fields_from-word field (a ∷ s) rest (ga, g) =
    fields_from-graphic field (s ++ rest) a ga
    ∙ (fields_from-word (a ∷ field) s rest g
        ∙ ap (λ f. fields_from f rest)
            (sym (append_assoc (reverse s) (a ∷ []) field)
              ∙ ap (λ r. r ++ field) (sym (reverse-cons a s))))

end_field_lem : (field : Str) → field ≢ [] → end_field field [] ≡ reverse field ∷ []
end_field_lem [] full = absurd (full refl)
end_field_lem (c ∷ field) full = refl

not_empty : (s : Str) → s ≢ [] → is_empty s ≡ false
not_empty [] full = absurd (full refl)
not_empty (c ∷ s) full = refl

-- The last field of a header that has graphic bytes only.
last_field : (token : Str) → token ≢ [] → All IsGraphic token → fields_from [] token ≡ token ∷ []
unfolding fields_from
last_field token full g =
    ap (fields_from []) (sym (append-nil token))
    ∙ (fields_from-word [] token [] g
        ∙ (ap (λ f. fields_from f []) (append-nil (reverse token))
            ∙ (end_field_lem (reverse token)
                  (λ e. full (sym (reverse-reverse token) ∙ ap reverse e))
                ∙ ap (λ s. s ∷ []) (reverse-reverse token))))

-- The header that a client sends for a token is read as that token.
pub bearer_token-Bearer :
    (token : Str)
    → token ≢ []
    → All IsGraphic token
    → bearer_token (lit "Bearer " ++ token) ≡ some token
unfolding bearer_token fields
bearer_token-Bearer token full g =
    rw
      (
        fields_from-word [] (lit "Bearer") (b' ' ∷ token) (ground arith),
        fields_from-space (reverse (lit "Bearer")) token,
        last_field token full g,
        token_of_parts,
      )
      (rw (not_empty token full) refl)

-- A request is refused with status 401, before its handler, when it has no bearer token or another
-- one than those that are set.
pub refused :
    {W : Type 0} (t : Str) (tokens : List Str) (header : Str) (next : W → Option Answer × W) (w : W)
    → ((token : Str) → bearer_token header ≡ some token → is_token token (t ∷ tokens) ≡ false)
    → (answer : Answer) × (auth_middleware (t ∷ tokens) header next w ≡ (some answer, w))
      × (answer.status ≡ 401)
unfolding auth_middleware refusal write_auth_error write_error write_json
refused t tokens header next w h = elim (Option-cases (bearer_token header)) [
  | inl absent ↦ (write_auth_error [], rw (absent, auth_middleware) refl, refl)
  | inr (token, found) ↦ (
    write_auth_error (lit "invalid_token"),
    rw (found, h token found, auth_middleware) refl,
    refl,
  )
]

-- A token that is set and made of graphic bytes lets the request through.
pub passed :
    {W : Type 0} (tokens : List Str) (token : Str) (next : W → Option Answer × W) (w : W)
    → token ≢ []
    → All IsGraphic token
    → is_token token tokens ≡ true
    → auth_middleware tokens (lit "Bearer " ++ token) next w ≡ next w
unfolding auth_middleware refusal
passed [] token next w full g set = refl
passed (t ∷ tokens) token next w full g set =
    rw (bearer_token-Bearer token full g, set, auth_middleware) refl
