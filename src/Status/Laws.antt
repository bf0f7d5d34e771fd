-- ===== src/Status/Laws.antt =====
-- What the lookups of internal/status/status.go return.
use mathlib.Core.List.{Memᴰ}
use batasd.Common.{true, false, List, [], ◌∷◌, ◌≡◌, ◌↔◌, ◌⊎◌, inl, inr, refl, arith, Bool-cases}
use batasd.Common.Str.{Str, str_eq, str_eq_iff}
use batasd.Status.{
  Status, queued, processing, all_statuses, valid_in, valid, terminal, describe_in, describe,
}

-- `Terminal` is false for the two codes of an unfinished submission and for nothing else.
pub terminal-eq-false_iff :
    (code : Str) → (terminal code ≡ false) ↔ ((code ≡ queued) ⊎ (code ≡ processing))
unfolding terminal
terminal-eq-false_iff code = ground (arith, str_eq_iff code queued, str_eq_iff code processing)

describe_in_cases :
    (items : List Status) (code : Str)
    → ((valid_in items code ≡ true)
        × Memᴰ (describe_in items code) items
        × ((describe_in items code).code ≡ code))
      ⊎ ((valid_in items code ≡ false)
          × (describe_in items code ≡ record { code = code; description = code }))
unfolding valid_in describe_in
describe_in_cases [] code = inr (refl, refl)
describe_in_cases (item ∷ items) code = elim (Bool-cases (str_eq item.code code)) [
  | inl same ↦
      rw (same, valid_in, describe_in)
        (inl (refl, Memᴰ.head refl, (str_eq_iff item.code code).0 same))
  | inr differs ↦
      rw (differs, valid_in, describe_in)
        (elim (describe_in_cases items code) [
          | inl (v, m, c) ↦ inl (v, Memᴰ.tail m, c)
          | inr (v, d) ↦ inr (v, d)
        ])
]

-- `Valid` accepts a code exactly when `Describe` returns an entry of the table with that code;
-- for any other code `Describe` repeats the code as the description.
pub describe_cases :
    (code : Str)
    → ((valid code ≡ true) × Memᴰ (describe code) all_statuses × ((describe code).code ≡ code))
      ⊎ ((valid code ≡ false) × (describe code ≡ record { code = code; description = code }))
unfolding valid describe
describe_cases code = describe_in_cases all_statuses code

pub describe-code : (code : Str) → (describe code).code ≡ code
describe-code code = elim (describe_cases code) [
  | inl (_, _, same) ↦ same
  | inr (_, same) ↦ rw same
]
