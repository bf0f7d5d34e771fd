-- ===== src/Store/Recovery/Order.antt =====
-- `ORDER BY created_at ASC` in RecoverUnfinished of internal/repository/postgres/submissions.go.
use mathlib.Core.List.{Permᴰ}
use mathlib.Core.List.Permᴰ
use batasd.Common.{false, List, [], ◌∷◌, ◌≡◌, refl, arith, ltb, Bool-cases, inl, inr}
use batasd.Submission.Model.{Submission}
use batasd.Store.{insert_oldest, oldest_first}

-- No row stands directly behind one that is younger.
abbrev pub IsOldestFirst : List Submission → Type 0
IsOldestFirst [] = Unit
IsOldestFirst (x ∷ []) = Unit
IsOldestFirst (x ∷ y ∷ rows) = (ltb y.created_at x.created_at ≡ false) × IsOldestFirst (y ∷ rows)

behind-IsOldestFirst :
    (y x : Submission) (rows : List Submission)
    → ltb x.created_at y.created_at ≡ false
    → IsOldestFirst (y ∷ rows)
    → IsOldestFirst (insert_oldest x rows)
    → IsOldestFirst (y ∷ insert_oldest x rows)
unfolding insert_oldest
behind-IsOldestFirst y x [] a s inserted = (a, tt)
behind-IsOldestFirst y x (z ∷ rows) a (s, t) inserted =
    elim (Bool-cases (ltb z.created_at x.created_at)) [
      | inl test ↦ rw (test, insert_oldest) (s, rw (test, insert_oldest) at inserted)
      | inr test ↦ rw (test, insert_oldest) (a, rw (test, insert_oldest) at inserted)
    ]

rest-IsOldestFirst :
    (y : Submission) (rows : List Submission) → IsOldestFirst (y ∷ rows) → IsOldestFirst rows
rest-IsOldestFirst y [] s = tt
rest-IsOldestFirst y (z ∷ rows) (s, t) = t

insert_oldest-IsOldestFirst :
    (x : Submission) (rows : List Submission)
    → IsOldestFirst rows
    → IsOldestFirst (insert_oldest x rows)
unfolding insert_oldest
insert_oldest-IsOldestFirst x [] s = tt
insert_oldest-IsOldestFirst x (y ∷ rows) s = elim (Bool-cases (ltb y.created_at x.created_at)) [
  | inl test ↦
      rw (test, insert_oldest)
        (behind-IsOldestFirst y x rows (ground arith) s
          (insert_oldest-IsOldestFirst x rows (rest-IsOldestFirst y rows s)))
  | inr test ↦ rw (test, insert_oldest) (test, s)
]

pub oldest_first-IsOldestFirst : (rows : List Submission) → IsOldestFirst (oldest_first rows)
unfolding oldest_first
oldest_first-IsOldestFirst [] = tt
oldest_first-IsOldestFirst (x ∷ rows) =
    insert_oldest-IsOldestFirst x (oldest_first rows) (oldest_first-IsOldestFirst rows)

insert_oldest-Permᴰ :
    (x : Submission) (rows : List Submission) → Permᴰ (x ∷ rows) (insert_oldest x rows)
unfolding insert_oldest
insert_oldest-Permᴰ x [] = Permᴰ.cons refl Permᴰ.nil
insert_oldest-Permᴰ x (y ∷ rows) = elim (Bool-cases (ltb y.created_at x.created_at)) [
  | inl test ↦
      rw (test, insert_oldest)
        (Permᴰ.trans (Permᴰ.swap refl refl) (Permᴰ.cons refl (insert_oldest-Permᴰ x rows)))
  | inr test ↦ rw (test, insert_oldest) (Permᴰ.refl (x ∷ y ∷ rows))
]

pub oldest_first-Permᴰ : (rows : List Submission) → Permᴰ rows (oldest_first rows)
unfolding oldest_first
oldest_first-Permᴰ [] = Permᴰ.nil
oldest_first-Permᴰ (x ∷ rows) =
    Permᴰ.trans (Permᴰ.cons refl (oldest_first-Permᴰ rows))
      (insert_oldest-Permᴰ x (oldest_first rows))
