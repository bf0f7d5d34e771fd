-- ===== src/Store/Listing/Pages.antt =====
-- The pages of List in internal/repository/postgres/submissions.go.
use batasd.Common.{ℕ, suc, ◌≤◌, ◌<◌, List, none, length, take, ◌≡◌, ◌↔◌}
use batasd.Common.Str.{Str}
use batasd.Submission.Model.{Submission, ListResult}
use batasd.Store.Listing.{token_at}

-- What a page of n rows is of all rows in order.
pub record IsPage (n : ℕ) (all : List Submission) (page : ListResult) : Type 0 where
  pub rows : page.submissions ≡ take n all
  pub bounded : length page.submissions ≤ n
  pub ends : (page.next_before ≡ none) ↔ (length all ≤ n)
  pub cursor : (i : ℕ) → n ≡ suc i → n < length all → page.next_before ≡ token_at i page.submissions
