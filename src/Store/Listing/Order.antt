-- ===== src/Store/Listing/Order.antt =====
-- The order and the selection of the rows that List reads.
use batasd.Common.{Bool, true, false, List, [], ◌∷◌, ◌≡◌, refl, arith, Bool-cases, inl, inr, All}
use batasd.Common.Str.{Str}
use batasd.Language.Sorting.{str_lt}
use batasd.Submission.Model.{Submission}
use batasd.Store.Listing.{older, select, insert_newest, newest_first}

-- No row stands directly behind one that is older.
abbrev pub IsNewestFirst : List Submission → Type 0
IsNewestFirst [] = Unit
IsNewestFirst (x ∷ []) = Unit
IsNewestFirst (x ∷ y ∷ rows) = (older x y ≡ false) × IsNewestFirst (y ∷ rows)

str_lt_asym : (s t : Str) → str_lt s t ≡ true → str_lt t s ≡ false
unfolding str_lt
str_lt_asym s [] h = cc
str_lt_asym [] (b ∷ t) h = refl
str_lt_asym (a ∷ s) (b ∷ t) h = ground (arith, str_lt_asym s t)

older_asym : (x y : Submission) → older x y ≡ true → older y x ≡ false
unfolding older
older_asym x y h = ground (arith, str_lt_asym x.token y.token)

behind-IsNewestFirst :
    (y x : Submission) (rows : List Submission)
    → older y x ≡ false
    → IsNewestFirst (y ∷ rows)
    → IsNewestFirst (insert_newest x rows)
    → IsNewestFirst (y ∷ insert_newest x rows)
unfolding insert_newest
behind-IsNewestFirst y x [] a s inserted = (a, tt)
behind-IsNewestFirst y x (z ∷ rows) a (s, t) inserted = elim (Bool-cases (older x z)) [
  | inl test ↦ rw (test, insert_newest) (s, rw (test, insert_newest) at inserted)
  | inr test ↦ rw (test, insert_newest) (a, rw (test, insert_newest) at inserted)
]

rest-IsNewestFirst :
    (y : Submission) (rows : List Submission) → IsNewestFirst (y ∷ rows) → IsNewestFirst rows
rest-IsNewestFirst y [] s = tt
rest-IsNewestFirst y (z ∷ rows) (s, t) = t

insert_newest-IsNewestFirst :
    (x : Submission) (rows : List Submission)
    → IsNewestFirst rows
    → IsNewestFirst (insert_newest x rows)
unfolding insert_newest
insert_newest-IsNewestFirst x [] s = tt
insert_newest-IsNewestFirst x (y ∷ rows) s = elim (Bool-cases (older x y)) [
  | inl test ↦
      rw (test, insert_newest)
        (behind-IsNewestFirst y x rows (older_asym x y test) s
          (insert_newest-IsNewestFirst x rows (rest-IsNewestFirst y rows s)))
  | inr test ↦ rw (test, insert_newest) (test, s)
]

pub newest_first-IsNewestFirst : (rows : List Submission) → IsNewestFirst (newest_first rows)
unfolding newest_first
newest_first-IsNewestFirst [] = tt
newest_first-IsNewestFirst (x ∷ rows) =
    insert_newest-IsNewestFirst x (newest_first rows) (newest_first-IsNewestFirst rows)

All-insert_newest :
    (P : Submission → Type 0) (x : Submission) (rows : List Submission)
    → P x
    → All P rows
    → All P (insert_newest x rows)
unfolding insert_newest
All-insert_newest P x [] p all = (p, tt)
All-insert_newest P x (y ∷ rows) p (q, all) = elim (Bool-cases (older x y)) [
  | inl test ↦ rw (test, insert_newest) (q, All-insert_newest P x rows p all)
  | inr test ↦ rw (test, insert_newest) (p, (q, all))
]

pub select-All :
    (test : Submission → Bool) (rows : List Submission)
    → All (λ r. test r ≡ true) (newest_first (select test rows))
unfolding select newest_first
select-All test [] = tt
select-All test (row ∷ rows) = elim (Bool-cases (test row)) [
  | inl fits ↦
      rw (fits, select, newest_first)
        (All-insert_newest (λ r. test r ≡ true) row (newest_first (select test rows)) fits
          (select-All test rows))
  | inr misses ↦ rw (misses, select) (select-All test rows)
]
