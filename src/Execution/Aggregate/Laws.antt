-- ===== src/Execution/Aggregate/Laws.antt =====
-- What runAggregate of internal/execution/engine.go reports for repeated runs.
use native.Mathlib.Nat.{le-div_iff_mul-le, div-le_of_le-mul}
use batasd.Common.{
  ℕ, suc, ◌+◌, ◌*◌, ◌/◌, ◌^◌, ◌≤◌, ◌<◌, ◌≡◌, ◌⊎◌, inl, inr, refl, arith, List, [], ◌∷◌, Option,
  none, some, length, All, Bool-cases,
}
use batasd.Common.Int.{ℤ, pos, ltb_ℤ, ltb_ℤ_iff, ◌≤ℤ◌, add_int64_pos, quot_ℤ}
use batasd.Sandbox.{SandboxResult}
use batasd.Execution.Aggregate.{
  Aggregate, zero_aggregate, add_memory, add, aggregate_result, averaged, add_all,
}

-- A run that took between lo and hi milliseconds.
abbrev pub TookBetween : ℕ → ℕ → SandboxResult → Type 0
TookBetween lo hi run = (t : ℕ) × (run.time_ms ≡ pos t) × (lo ≤ t) × (t ≤ hi)

-- The sum so far lies between count * lo and count * hi.
record SumBetween (lo hi : ℕ) (a : Aggregate) : Type 0 where
  total : ℕ
  is_total : a.time_ms ≡ pos total
  above : a.count * lo ≤ total
  below : total ≤ a.count * hi

module _ (lo hi : ℕ) where
  add-SumBetween :
      (a : Aggregate) (run : SandboxResult)
      → SumBetween lo hi a
      → TookBetween lo hi run
      → suc a.count * hi < 2 ^ 63
      → SumBetween lo hi (add a run)
  unfolding add
  add-SumBetween a run s (t, is_t, lo_t, t_hi) room =
      let fits : s.total + t < 2 ^ 63 = grind (arith, s.below) in
      record {
        total = s.total + t;
        is_total = rw (s.is_total, is_t) (add_int64_pos s.total t fits);
        above = grind (arith, s.above);
        below = grind (arith, s.below);
      }

  add_all-SumBetween :
      (a : Aggregate) (runs : List SandboxResult)
      → SumBetween lo hi a
      → All (TookBetween lo hi) runs
      → (a.count + length runs) * hi < 2 ^ 63
      → SumBetween lo hi (add_all a runs) × ((add_all a runs).count ≡ a.count + length runs)
  unfolding add_all add
  add_all-SumBetween a [] s all room = (s, omega arith)
  add_all-SumBetween a (run ∷ runs) s (took, all) room =
      let here : suc a.count * hi < 2 ^ 63 = grind arith in
      let next = add-SumBetween a run s took here in
      let ih = add_all-SumBetween (add a run) runs next all (grind arith) in
      (ih.0, omega (arith, ih.1))

  averaged-time :
      (n : ℕ) (a : Aggregate)
      → a.count ≡ suc n
      → SumBetween lo hi a
      → TookBetween lo hi (aggregate_result a)
  unfolding aggregate_result quot_ℤ
  averaged-time n a counted s =
      rw (counted, aggregate_result, s.is_total)
        (
          s.total / suc n,
          refl,
          (le-div_iff_mul-le (omega arith)).1 (grind (arith, s.above, counted)),
          div-le_of_le-mul (suc n) (grind (arith, s.below, counted)),
        )

  -- The time that is reported for one or more runs lies between lo and hi, where every run took
  -- between lo and hi milliseconds and their number times hi fits an int64.
  pub aggregate_result-TookBetween :
      (run : SandboxResult) (runs : List SandboxResult)
      → All (TookBetween lo hi) (run ∷ runs)
      → length (run ∷ runs) * hi < 2 ^ 63
      → TookBetween lo hi (aggregate_result (add_all zero_aggregate (run ∷ runs)))
  aggregate_result-TookBetween run runs took room =
      let start : SumBetween lo hi zero_aggregate = record {
        total = 0;
        is_total = refl;
        above = omega arith;
        below = omega arith;
      } in
      let sum = add_all-SumBetween zero_aggregate (run ∷ runs) start took (grind arith) in
      averaged-time (length runs) _ (omega (arith, sum.1)) sum.0

-- A reading that is missing, or at most m.
abbrev pub IsAtMost : ℤ → Option ℤ → Type 0
IsAtMost m none = Unit
IsAtMost m (some j) = j ≤ℤ m

abbrev pub IsReported : ℤ → List SandboxResult → Type 0
IsReported m [] = ⊥
IsReported m (run ∷ runs) = (run.memory_kb ≡ some m) ⊎ IsReported m runs

-- The second argument is the peak of some readings k and of those of the runs.
abbrev pub IsPeak : Option ℤ → Option ℤ → List SandboxResult → Type 0
IsPeak none k runs = (k ≡ none) × All (λ run. run.memory_kb ≡ none) runs
IsPeak (some m) k runs =
    IsAtMost m k × All (λ run. IsAtMost m run.memory_kb) runs × ((k ≡ some m) ⊎ IsReported m runs)

add_memory-IsAtMost :
    (m : ℤ) (k j : Option ℤ) → IsAtMost m (add_memory k j) → IsAtMost m k × IsAtMost m j
unfolding add_memory
add_memory-IsAtMost m none none h = (tt, tt)
add_memory-IsAtMost m none (some j) h = (tt, h)
add_memory-IsAtMost m (some k) none h = (h, tt)
add_memory-IsAtMost m (some k) (some j) h = elim (Bool-cases (ltb_ℤ k j)) [
  | inl up ↦
      let h' : j ≤ℤ m = rw (up, add_memory) at h in
      let below = (ltb_ℤ_iff k j).0 up in (omega arith, h')
  | inr down ↦ let h' : k ≤ℤ m = rw (down, add_memory) at h in (h', ground (arith, ltb_ℤ_iff k j))
]

add_memory-eq : (m : Option ℤ) (k j : Option ℤ) → add_memory k j ≡ m → (k ≡ m) ⊎ (j ≡ m)
unfolding add_memory
add_memory-eq m none none e = inl e
add_memory-eq m none (some j) e = inr e
add_memory-eq m (some k) none e = inl e
add_memory-eq m (some k) (some j) e = ground arith

add_memory-eq-none : (k j : Option ℤ) → add_memory k j ≡ none → (k ≡ none) × (j ≡ none)
unfolding add_memory
add_memory-eq-none none none e = (refl, refl)
add_memory-eq-none none (some j) e = cc
add_memory-eq-none (some k) none e = cc
add_memory-eq-none (some k) (some j) e = ground arith

IsPeak-step :
    (m k : Option ℤ) (run : SandboxResult) (runs : List SandboxResult)
    → IsPeak m (add_memory k run.memory_kb) runs
    → IsPeak m k (run ∷ runs)
IsPeak-step none k run runs (e, all) =
    let (ek, er) = add_memory-eq-none k run.memory_kb e in (ek, (er, all))
IsPeak-step (some m) k run runs (b, all, seen) =
    let (bk, br) = add_memory-IsAtMost m k run.memory_kb b in
    (
      bk,
      (br, all),
      elim seen [
        | inl e ↦ elim (add_memory-eq (some m) k run.memory_kb e) [
          | inl ek ↦ inl ek
          | inr er ↦ inr (inl er)
        ]
        | inr later ↦ inr (inr later)
      ],
    )

add_all-IsPeak :
    (a : Aggregate) (runs : List SandboxResult) → IsPeak (add_all a runs).memory_kb a.memory_kb runs
unfolding add_all add
add_all-IsPeak a [] = stays a.memory_kb
  where
    stays : (m : Option ℤ) → IsPeak m m []
    stays none = (refl, tt)
    stays (some m) = (omega arith, tt, inl refl)
add_all-IsPeak a (run ∷ runs) = IsPeak-step _ a.memory_kb run runs (add_all-IsPeak (add a run) runs)

add_all-count :
    (a : Aggregate) (runs : List SandboxResult) → (add_all a runs).count ≡ a.count + length runs
unfolding add_all add
add_all-count a [] = omega arith
add_all-count a (run ∷ runs) = omega (arith, add_all-count (add a run) runs)

-- The memory that is reported for one or more runs is the largest reading of all of them, and is
-- missing exactly when no run has one.
pub aggregate_result-IsPeak :
    (run : SandboxResult) (runs : List SandboxResult)
    → IsPeak (aggregate_result (add_all zero_aggregate (run ∷ runs))).memory_kb none (run ∷ runs)
unfolding aggregate_result
aggregate_result-IsPeak run runs =
    rw
      (averaged_memory (add_all zero_aggregate (run ∷ runs))
        (add_all-count zero_aggregate (run ∷ runs)))
      (add_all-IsPeak zero_aggregate (run ∷ runs))
  where
    averaged_memory :
        (a : Aggregate)
        → a.count ≡ 0 + length (run ∷ runs)
        → (averaged a.count a).memory_kb ≡ a.memory_kb
    averaged_memory a e =
        let e' : a.count ≡ suc (length runs) = omega (arith, e) in rw (e', averaged)
