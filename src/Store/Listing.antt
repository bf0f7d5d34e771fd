-- ===== src/Store/Listing.antt =====
-- List of internal/repository/postgres/submissions.go: a page of the rows, newest first. Strings are
-- ordered by their bytes; the limit that is asked for is below the largest int.
pub mod Order
pub mod Pages
use batasd.Common.{
  ℕ, zero, suc, ◌+◌, ◌≤◌, ◌<◌, min, Bool, true, false, ◌&&◌, ◌||◌, not, List, [], ◌∷◌, Option, none,
  some, if◌then◌else◌, ltb, ◌==◌, length, take, length-take, take_all, All, ◌≡◌, ◌↔◌, refl, ap, ◌∙◌,
  arith, Bool-cases, inl, inr,
}
use batasd.Common.Int.{ℤ, pos, pos_part, ltb_ℤ}
use batasd.Common.Str.{Str, str_eq, is_empty}
use batasd.Submission.Model.{Submission, ListQuery, ListResult}
use batasd.Language.Sorting.{str_lt}

-- `(created_at, token) < (created_at, token)` for two rows.
unfoldable pub older : Submission → Submission → Bool
unfolding str_lt
older a b =
    ltb a.created_at b.created_at || (a.created_at == b.created_at && str_lt a.token b.token)

-- The row of the cursor, if there is one.
unfoldable pub cursor_row : Str → List Submission → Option Submission
unfolding str_eq
cursor_row token [] = none
cursor_row token (row ∷ rows) = if str_eq row.token token then some row else cursor_row token rows

-- A comparison with no row is NULL, which selects nothing.
unfoldable pub older_than : Option Submission → Submission → Bool
unfolding older
older_than none row = false
older_than (some cursor) row = older row cursor

-- The WHERE clause.
unfoldable pub matches : ListQuery → List Submission → Submission → Bool
unfolding str_eq cursor_row older_than
matches query table row =
    (is_empty query.status_code || str_eq row.status_code query.status_code)
    && ((is_empty query.language || str_eq row.language query.language)
        && (is_empty query.before_token || older_than (cursor_row query.before_token table) row))

unfoldable pub select : (Submission → Bool) → List Submission → List Submission
select test [] = []
select test (row ∷ rows) = let rest = select test rows in if test row then row ∷ rest else rest

-- `ORDER BY created_at DESC, token DESC`.
unfoldable pub insert_newest : Submission → List Submission → List Submission
unfolding older
insert_newest x [] = x ∷ []
insert_newest x (y ∷ ys) = if older x y then y ∷ insert_newest x ys else x ∷ y ∷ ys

unfoldable pub newest_first : List Submission → List Submission
unfolding insert_newest
newest_first [] = []
newest_first (x ∷ xs) = insert_newest x (newest_first xs)

-- `if limit < 1 { limit = 1 }`.
unfoldable pub page_size : ℤ → ℕ
page_size limit = if ltb_ℤ limit (pos 1) then 1 else pos_part limit

-- `subs[i].Token`.
unfoldable pub token_at : ℕ → List Submission → Option Str
token_at i [] = none
token_at zero (row ∷ rows) = some row.token
token_at (suc i) (row ∷ rows) = token_at i rows

-- The page of n + 1 rows, when one more than that was asked for.
unfoldable pub page_of : ℕ → List Submission → ListResult
unfolding take token_at
page_of n fetched =
    if ltb (suc n) (length fetched)
    then record {
      submissions = take (suc n) fetched;
      next_before = token_at n fetched;
      limit = pos (suc n);
    }
    else record { submissions = fetched; next_before = none; limit = pos (suc n) }

-- All rows that a query asks for, in the order of its pages.
unfoldable pub ordered : ListQuery → List Submission → List Submission
unfolding select matches newest_first
ordered query table = newest_first (select (matches query table) table)

unfoldable pub list_page : ℕ → ListQuery → List Submission → ListResult
unfolding page_of ordered take
list_page zero query table = record { submissions = []; next_before = none; limit = pos 0 }
list_page (suc n) query table = page_of n (take (suc (suc n)) (ordered query table))

unfoldable pub list_rows : ListQuery → List Submission → ListResult
unfolding list_page page_size
list_rows query table = list_page (page_size query.limit) query table
