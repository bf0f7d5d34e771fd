-- ===== src/Store/Recovery.antt =====
-- The rows and the tokens behind RecoverUnfinished of internal/repository/postgres/submissions.go.
pub mod Order
use mathlib.Core.List.{Memᴰ}
use batasd.Common.{
  Bool, true, false, List, [], ◌∷◌, ◌≡◌, ◌⊎◌, inl, inr, refl, sym, subst, ◌||◌, map, ltb,
  Bool-cases, All,
}
use batasd.Common.Str.{Str, str_eq, str_eq_iff}
use batasd.Submission.Model.{Time, Submission}
use batasd.Store.{
  is_unfinished, set_recovered, recover_rows, unfinished_rows, insert_oldest, oldest_first,
  recover_unfinished,
}
use batasd.Status.{queued, processing, terminal}
use batasd.Status.Laws.{terminal-eq-false_iff}

abbrev tokens_of : List Submission → List Str
tokens_of rows = map (λ row. row.token) rows

insert_oldest-Memᴰ_head :
    (x : Submission) (rows : List Submission) → Memᴰ x.token (tokens_of (insert_oldest x rows))
unfolding insert_oldest
insert_oldest-Memᴰ_head x [] = Memᴰ.head refl
insert_oldest-Memᴰ_head x (y ∷ rows) = elim (Bool-cases (ltb y.created_at x.created_at)) [
  | inl test ↦ rw (test, insert_oldest) (Memᴰ.tail (insert_oldest-Memᴰ_head x rows))
  | inr test ↦ rw (test, insert_oldest) (Memᴰ.head refl)
]

insert_oldest-Memᴰ :
    (token : Str) (x : Submission) (rows : List Submission)
    → Memᴰ token (tokens_of rows)
    → Memᴰ token (tokens_of (insert_oldest x rows))
unfolding insert_oldest
insert_oldest-Memᴰ token x [] m = Memᴰ.tail m
insert_oldest-Memᴰ token x (y ∷ rows) (Memᴰ.head e) =
    elim (Bool-cases (ltb y.created_at x.created_at)) [
      | inl test ↦ rw (test, insert_oldest) (Memᴰ.head e)
      | inr test ↦ rw (test, insert_oldest) (Memᴰ.tail (Memᴰ.head e))
    ]
insert_oldest-Memᴰ token x (y ∷ rows) (Memᴰ.tail t) =
    elim (Bool-cases (ltb y.created_at x.created_at)) [
      | inl test ↦ rw (test, insert_oldest) (Memᴰ.tail (insert_oldest-Memᴰ token x rows t))
      | inr test ↦ rw (test, insert_oldest) (Memᴰ.tail (Memᴰ.tail t))
    ]

-- Every unfinished row of `rows` has its token among `tokens`.
abbrev Listed : List Str → List Submission → Type 0
Listed tokens rows = All (λ row. is_unfinished row ≡ true → Memᴰ row.token tokens) rows

Listed-insert_oldest :
    (x : Submission) (later rows : List Submission)
    → Listed (tokens_of later) rows
    → Listed (tokens_of (insert_oldest x later)) rows
Listed-insert_oldest x later [] all = tt
Listed-insert_oldest x later (row ∷ rows) (h, all) =
    (λ e. insert_oldest-Memᴰ row.token x later (h e), Listed-insert_oldest x later rows all)

-- How the rows to recover begin with a row, or without it.
unfinished-first :
    (row : Submission) (rows : List Submission)
    → is_unfinished row ≡ true
    → oldest_first (unfinished_rows (row ∷ rows))
      ≡ insert_oldest row (oldest_first (unfinished_rows rows))
unfolding oldest_first unfinished_rows
unfinished-first row rows test = rw (test, unfinished_rows) refl

finished-first :
    (row : Submission) (rows : List Submission)
    → is_unfinished row ≡ false
    → oldest_first (unfinished_rows (row ∷ rows)) ≡ oldest_first (unfinished_rows rows)
unfolding unfinished_rows
finished-first row rows test = rw (test, unfinished_rows) refl

oldest_first-Listed :
    (rows : List Submission) → Listed (tokens_of (oldest_first (unfinished_rows rows))) rows
oldest_first-Listed [] = tt
oldest_first-Listed (row ∷ rows) =
    let rest = oldest_first-Listed rows in
    elim (Bool-cases (is_unfinished row)) [
      | inl test ↦
          subst (λ l. Listed (tokens_of l) (row ∷ rows)) (sym (unfinished-first row rows test))
            (
              λ e. insert_oldest-Memᴰ_head row (oldest_first (unfinished_rows rows)),
              Listed-insert_oldest row (oldest_first (unfinished_rows rows)) rows rest,
            )
      | inr test ↦
          subst (λ l. Listed (tokens_of l) (row ∷ rows)) (sym (finished-first row rows test))
            (λ e. absurd (cc), rest)
    ]

neither : (a b : Bool) → (a || b) ≡ false → (a ≡ false) × (b ≡ false)
neither true b h = cc
neither false b h = (refl, h)

finished-terminal : (row : Submission) → is_unfinished row ≡ false → terminal row.status_code ≡ true
unfolding is_unfinished
finished-terminal row h =
    let (no_q, no_p) =
      neither (str_eq row.status_code queued) (str_eq row.status_code processing) h in
    elim (Bool-cases (terminal row.status_code)) [
      | inl over ↦ over
      | inr goes_on ↦ elim ((terminal-eq-false_iff row.status_code).0 goes_on) [
        | inl q ↦ let hit = (str_eq_iff row.status_code queued).1 q in absurd (cc)
        | inr p ↦ let hit = (str_eq_iff row.status_code processing).1 p in absurd (cc)
      ]
    ]

-- A row behind the recovery that gives `tokens`.
abbrev pub IsRecovered : List Str → Submission → Type 0
IsRecovered tokens row =
    (terminal row.status_code ≡ true) ⊎ ((row.status_code ≡ queued) × Memᴰ row.token tokens)

recover_rows-IsRecovered :
    (at : Time) (tokens : List Str) (rows : List Submission)
    → Listed tokens rows
    → All (IsRecovered tokens) (recover_rows at rows)
unfolding recover_rows set_recovered
recover_rows-IsRecovered at tokens [] listed = tt
recover_rows-IsRecovered at tokens (row ∷ rows) (h, listed) =
    let rest = recover_rows-IsRecovered at tokens rows listed in
    elim (Bool-cases (is_unfinished row)) [
      | inl test ↦ rw (test, recover_rows) (inr (refl, h test), rest)
      | inr test ↦ rw (test, recover_rows) (inl (finished-terminal row test), rest)
    ]

-- Behind RecoverUnfinished every submission either has a terminal status, or is queued and its token
-- is among those that are returned to be enqueued: none is left processing or forgotten.
pub recover_unfinished-IsRecovered :
    (at : Time) (rows : List Submission)
    → All (IsRecovered (recover_unfinished at rows).0) (recover_unfinished at rows).1
unfolding recover_unfinished
recover_unfinished-IsRecovered at rows =
    recover_rows-IsRecovered at _ rows (oldest_first-Listed rows)
