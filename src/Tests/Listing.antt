-- ===== src/Tests/Listing.antt =====
-- A page of one of two rows.
use batasd.Common.{List, [], ◌∷◌, some, ◌≡◌, refl}
use batasd.Common.Int.{pos}
use batasd.Common.Str.{lit}
use batasd.Submission.Model.{Submission, ListQuery}
use batasd.Store.Listing.{list_rows}
use batasd.Tests.Fixtures.{submission}

abbrev table : List Submission
table = submission ∷ record submission { token = lit "sub_b"; created_at = 2 } ∷ []

abbrev query : ListQuery
query = record { limit = pos 1; before_token = []; status_code = lit "queued"; language = [] }

cursor_test : (list_rows query table).next_before ≡ some (lit "sub_b")
unfolding list_rows
cursor_test = refl
