-- ===== src/Store/Rows.antt =====
-- What the updates of internal/repository/postgres/submissions.go do to the rows that are found.
use batasd.Common.{
  true, false, List, [], ◌∷◌, ◌≡◌, ◌≢◌, inl, inr, refl, sym, ap, ◌∙◌, subst, All, Bool-cases,
}
use batasd.Common.Str.{Str, str_eq, str_eq_iff}
use batasd.Common.Errors.{ok, ok_value}
use batasd.Submission.Model.{Submission}
use batasd.Store.{has_token, find_row, update_rows}

-- No two rows have the same token.
abbrev pub IsUnique : List Submission → Type 0
IsUnique [] = Unit
IsUnique (row ∷ rows) = (has_token row.token rows ≡ false) × IsUnique rows

-- What an assignment that does not touch the primary key is.
abbrev pub KeepsToken : (Submission → Submission) → Type 0
KeepsToken set = (row : Submission) → (set row).token ≡ row.token

pub find_row-has_token :
    (token : Str) (rows : List Submission) {sub : Submission}
    → find_row token rows ≡ ok sub
    → has_token token rows ≡ true
unfolding find_row has_token
find_row-has_token token [] h = absurd (cc)
find_row-has_token token (row ∷ rows) h = elim (Bool-cases (str_eq row.token token)) [
  | inl same ↦ rw (same, has_token) refl
  | inr apart ↦ rw (apart, has_token) (find_row-has_token token rows (rw (apart, find_row) at h))
]

pub has_token-update_rows :
    (t token : Str) (set : Submission → Submission) (rows : List Submission)
    → KeepsToken set
    → has_token t (update_rows token set rows) ≡ has_token t rows
unfolding has_token update_rows
has_token-update_rows t token set [] keeps = refl
has_token-update_rows t token set (row ∷ rows) keeps =
    let rest = has_token-update_rows t token set rows keeps in
    elim (Bool-cases (str_eq row.token token)) [
      | inl same ↦ rw (same, update_rows, has_token, keeps row, rest) refl
      | inr apart ↦ rw (apart, update_rows, has_token, rest) refl
    ]

-- Rows without the token are left as they are.
update_rows_absent :
    (token : Str) (set : Submission → Submission) (rows : List Submission)
    → has_token token rows ≡ false
    → update_rows token set rows ≡ rows
unfolding has_token update_rows
update_rows_absent token set [] h = refl
update_rows_absent token set (row ∷ rows) h = elim (Bool-cases (str_eq row.token token)) [
  | inl same ↦ absurd (let e = rw (same, has_token) at h in cc)
  | inr apart ↦
      rw (apart, update_rows)
        (ap (◌∷◌ row) (update_rows_absent token set rows (rw (apart, has_token) at h)))
]

pub IsUnique-update_rows :
    (token : Str) (set : Submission → Submission) (rows : List Submission)
    → KeepsToken set
    → IsUnique rows
    → IsUnique (update_rows token set rows)
unfolding update_rows
IsUnique-update_rows token set [] keeps u = tt
IsUnique-update_rows token set (row ∷ rows) keeps (first, u) =
    let rest = IsUnique-update_rows token set rows keeps u in
    let kept = has_token-update_rows row.token token set rows keeps ∙ first in
    elim (Bool-cases (str_eq row.token token)) [
      | inl same ↦ rw (same, update_rows, keeps row) (kept, rest)
      | inr apart ↦ rw (apart, update_rows) (kept, rest)
    ]

pub All-found :
    (P : Submission → Type 0) (token : Str) (rows : List Submission) {sub : Submission}
    → find_row token rows ≡ ok sub
    → All P rows
    → P sub
unfolding find_row
All-found P token [] found all = absurd (cc)
All-found P token (row ∷ rows) {sub} found (p, all) = elim (Bool-cases (str_eq row.token token)) [
  | inl same ↦
      let found_here : ok row ≡ ok sub = rw (same, find_row) at found in
      subst P (ok_value found_here) p
  | inr apart ↦ All-found P token rows (rw (apart, find_row) at found) all
]

-- A property of all rows is kept by an update that keeps it at the row that is found.
pub All-update_rows :
    (P : Submission → Type 0) (token : Str) (set : Submission → Submission) (rows : List Submission)
    {sub : Submission}
    → IsUnique rows
    → find_row token rows ≡ ok sub
    → P (set sub)
    → All P rows
    → All P (update_rows token set rows)
unfolding find_row update_rows
All-update_rows P token set [] u found p all = tt
All-update_rows P token set (row ∷ rows) {sub} (first, u) found p (q, all) =
    elim (Bool-cases (str_eq row.token token)) [
      | inl same ↦ rw (same, update_rows) (here same, there same)
      | inr apart ↦
          rw (apart, update_rows)
            (q, All-update_rows P token set rows u (rw (apart, find_row) at found) p all)
    ]
  where
    here : str_eq row.token token ≡ true → P (set row)
    here same =
        let found_here : ok row ≡ ok sub = rw (same, find_row) at found in
        subst (λ r. P (set r)) (sym (ok_value found_here)) p

    there : str_eq row.token token ≡ true → All P (update_rows token set rows)
    there same =
        let absent : has_token token rows ≡ false =
          subst (λ t. has_token t rows ≡ false) ((str_eq_iff row.token token).0 same) first in
        subst (All P) (sym (update_rows_absent token set rows absent)) all

-- A mark or a result that is stored is what the next look-up of its token finds.
pub find_row-update_rows :
    (token : Str) (set : Submission → Submission) (rows : List Submission) {sub : Submission}
    → KeepsToken set
    → find_row token rows ≡ ok sub
    → find_row token (update_rows token set rows) ≡ ok (set sub)
unfolding find_row update_rows
find_row-update_rows token set [] keeps found = absurd (cc)
find_row-update_rows token set (row ∷ rows) {sub} keeps found =
    elim (Bool-cases (str_eq row.token token)) [
      | inl same ↦
          let found_here : ok row ≡ ok sub = rw (same, find_row) at found in
          let hit : str_eq (set row).token token ≡ true =
            subst (λ t. str_eq t token ≡ true) (sym (keeps row)) same in
          rw (same, update_rows, find_row, hit) (ap (λ r. ok (set r)) (ok_value found_here))
      | inr apart ↦
          rw (apart, update_rows, find_row)
            (rw apart (find_row-update_rows token set rows keeps (rw (apart, find_row) at found)))
    ]

-- An update of one token does not show in the look-up of another.
pub find_row-update_rows_other :
    (t token : Str) (set : Submission → Submission) (rows : List Submission)
    → KeepsToken set
    → t ≢ token
    → find_row t (update_rows token set rows) ≡ find_row t rows
unfolding find_row update_rows
find_row-update_rows_other t token set [] keeps other = refl
find_row-update_rows_other t token set (row ∷ rows) keeps other =
    let rest = find_row-update_rows_other t token set rows keeps other in
    elim (Bool-cases (str_eq row.token token)) [
      | inl same ↦
          let at_token = (str_eq_iff row.token token).0 same in
          elim (Bool-cases (str_eq row.token t)) [
            | inl hit ↦ absurd (other (sym ((str_eq_iff row.token t).0 hit) ∙ at_token))
            | inr miss ↦ rw (same, update_rows, find_row, keeps row, miss, rest) refl
          ]
      | inr apart ↦ rw (apart, update_rows, find_row, rest) refl
    ]
