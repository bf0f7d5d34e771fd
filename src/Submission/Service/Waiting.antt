-- ===== src/Submission/Service/Waiting.antt =====
-- What the polling of WaitForCompletion in internal/submission/service.go returns.
use batasd.Common.{
  ◌≤◌, ℕ, zero, suc, ◌<◌, true, false, Option, none, some, ◌≡◌, ◌⊎◌, inl, inr, refl, arith,
  Bool-cases, Option-cases,
}
use batasd.Common.Str.{Str}
use batasd.Common.Errors.{Error, Result, ok, err}
use batasd.Submission.Model.{Submission}
use batasd.Submission.Backend.{Backend}
use batasd.Submission.Service.{poll}
use batasd.Status.{terminal}

Result-cases :
    (r : Result Submission) → ((e : Error) × (r ≡ err e)) ⊎ ((sub : Submission) × (r ≡ ok sub))
Result-cases (ok sub) = inr (sub, refl)
Result-cases (err e) = inl (e, refl)

module _ {W : Type 0} (b : Backend W) (token : Str) where
  -- The world behind k rounds of polling.
  abbrev pub polled : ℕ → W → W
  polled zero w = w
  polled (suc k) w = polled k (b.tick (b.repo.find_by_token token w).1).1

  -- The context is over when the ticker of the round behind k others is waited for.
  abbrev pub EndsBehind : ℕ → W → Type 0
  EndsBehind k w = (e : Error) × ((b.tick (b.repo.find_by_token token (polled k w)).1).0 ≡ some e)

  -- The round in the world w reads an unfinished submission, and the ticker is behind it.
  abbrev pub GoesOn : W → Type 0
  GoesOn w =
      (sub : Submission) × ((b.repo.find_by_token token w).0 ≡ ok sub)
      × (terminal sub.status_code ≡ false)
      × ((b.tick (b.repo.find_by_token token w).1).0 ≡ none)

  -- The first j rounds from the world w go on.
  abbrev pub AllGoOn : ℕ → W → Type 0
  AllGoOn zero w = Unit
  AllGoOn (suc j) w = GoesOn w × AllGoOn j (b.tick (b.repo.find_by_token token w).1).1

  -- What the last round, in the world w, makes of what it reads: a lone error is the repository's, a
  -- lone submission is terminal, and both are an unfinished submission with the context's error.
  abbrev pub IsAnswer : W → Option Submission → Option Error → Type 0
  IsAnswer w (some sub) none =
      ((b.repo.find_by_token token w).0 ≡ ok sub) × (terminal sub.status_code ≡ true)
  IsAnswer w (some sub) (some e) =
      ((b.repo.find_by_token token w).0 ≡ ok sub)
      × (terminal sub.status_code ≡ false)
      × ((b.tick (b.repo.find_by_token token w).1).0 ≡ some e)
  IsAnswer w none (some e) = (b.repo.find_by_token token w).0 ≡ err e
  IsAnswer w none none = ⊥

  ends_later :
      (k : ℕ) (w : W)
      → EndsBehind k w
      → (b.tick (b.repo.find_by_token token w).1).0 ≡ none
      → (k' : ℕ) × (k ≡ suc k') × EndsBehind k' (b.tick (b.repo.find_by_token token w).1).1
  ends_later zero w (e, ended) goes_on = absurd (cc)
  ends_later (suc k) w ends goes_on = (k, refl, ends)

  -- When the context is over behind k rounds, more than k rounds of fuel are enough for an answer. It
  -- comes from a round that is at most k rounds on, and all rounds before it read an unfinished
  -- submission and went on: it is the repository's error in that round, or the submission that it
  -- reads, alone when it is terminal and with the context's error when it is not.
  pub poll-IsAnswer :
      (k fuel : ℕ) (w : W)
      → k < fuel
      → EndsBehind k w
      → (j : ℕ) × (sub : Option Submission) × (e : Option Error) × (j ≤ k)
        × AllGoOn j w
        × ((poll b fuel token w).0 ≡ some (sub, e))
        × IsAnswer (polled j w) sub e
  unfolding poll
  poll-IsAnswer k zero w lt ends = absurd (omega (arith, lt))
  poll-IsAnswer k (suc fuel) w lt ends = elim (Result-cases (b.repo.find_by_token token w).0) [
    | inl (e, failed) ↦ (0, none, some e, omega arith, tt, rw (failed, poll) refl, failed)
    | inr (sub, found) ↦ elim (Bool-cases (terminal sub.status_code)) [
      | inl over ↦ (0, some sub, none, omega arith, tt, rw (found, over, poll) refl, (found, over))
      | inr waits ↦ elim (Option-cases (b.tick (b.repo.find_by_token token w).1).0) [
        | inr (e, ended) ↦ (
          0,
          some sub,
          some e,
          omega arith,
          tt,
          rw (found, waits, ended, poll) refl,
          (found, waits, ended),
        )
        | inl goes_on ↦
            let (k', e, ends') = ends_later k w ends goes_on in
            let (j, sub', e', le, before, answered, answer) =
              poll-IsAnswer k' fuel _ (omega (arith, lt, e)) ends' in
            (
              suc j,
              sub',
              e',
              omega (arith, le, e),
              ((sub, found, waits, goes_on), before),
              rw (found, waits, goes_on, poll) answered,
              answer,
            )
      ]
    ]
  ]
