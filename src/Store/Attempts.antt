-- ===== src/Store/Attempts.antt =====
-- ListCallbackAttempts of internal/repository/postgres/submissions.go.
use batasd.Common.{Bool, ◌||◌, ◌&&◌, List, [], ◌∷◌, if◌then◌else◌}
use batasd.Common.Int.{ltb_ℤ, leb_ℤ}
use batasd.Common.Str.{Str, str_eq}
use batasd.Submission.Model.{CallbackAttempt}
use batasd.Store.{Database}

-- WHERE submission_token = $1.
unfoldable pub attempts_with : Str → List CallbackAttempt → List CallbackAttempt
unfolding str_eq
attempts_with token [] = []
attempts_with token (a ∷ rows) =
    let rest = attempts_with token rows in
    if str_eq a.submission_token token then a ∷ rest else rest

-- ORDER BY attempt ASC, id ASC.
unfoldable pub not_after : CallbackAttempt → CallbackAttempt → Bool
not_after a b = ltb_ℤ a.attempt b.attempt || (leb_ℤ a.attempt b.attempt && leb_ℤ a.id b.id)

unfoldable pub insert_attempt : CallbackAttempt → List CallbackAttempt → List CallbackAttempt
unfolding not_after
insert_attempt a [] = a ∷ []
insert_attempt a (b ∷ rows) =
    let rest = insert_attempt a rows in if not_after a b then a ∷ b ∷ rows else b ∷ rest

unfoldable pub sort_attempts : List CallbackAttempt → List CallbackAttempt
unfolding insert_attempt
sort_attempts [] = []
sort_attempts (a ∷ rows) = insert_attempt a (sort_attempts rows)

unfoldable pub list_callback_attempts : Str → Database → List CallbackAttempt
unfolding attempts_with sort_attempts
list_callback_attempts token db = sort_attempts (attempts_with token db.attempts)
