-- ===== src/Sandbox/Isolate/Args/Exact.antt =====
-- How exact the seconds are that internal/sandbox/isolate/isolate.go hands to isolate.
use native.Mathlib.Nat.{div-eq_of_lt-le, mod-eq-sub-div-mul, suc-mul, zero-mul, pow-le-pow_right}
use batasd.Common.{
  ℕ, zero, suc, ◌+◌, ◌-◌, ◌*◌, ◌/◌, ◌%◌, ◌^◌, ◌≤◌, ◌<◌, true, false, ◌≡◌, refl, ap, ◌∙◌, ltb, leb,
  arith, Bool-cases, inl, inr, ltb-eq-true,
}
use batasd.Common.Int.{pos}
use batasd.Sandbox.Isolate.Args.{
  round_half_even, spare_bits, float_of, fraction_bits, thousandths, format_thousandths,
  milliseconds_as_seconds,
}

-- A quotient that is less than a half below n.
rounded_up : (a d n : ℕ) → 2 * (n * d - a) < d → leb (n * d) a ≡ false → round_half_even a d ≡ n
unfolding round_half_even
rounded_up a d zero k below = absurd (ground (arith, zero-mul d))
rounded_up a d (suc n) k below =
    let step = suc-mul n d in
    let q : a / d ≡ n = div-eq_of_lt-le d (omega (arith, k, step)) (ground (arith, step)) in
    let r : a % d ≡ a - n * d = mod-eq-sub-div-mul a d ∙ ap (λ m. a - m * d) q in
    rw (r, q) (ground (arith, step, k))

-- A quotient by d that is nearer to n than a half is rounded to n.
round_half_even-near :
    (a d n : ℕ) → 2 * (a - n * d) < d → 2 * (n * d - a) < d → round_half_even a d ≡ n
unfolding round_half_even
round_half_even-near a d n h k = elim (Bool-cases (leb (n * d) a)) [
  | inl above ↦
      let q : a / d ≡ n = div-eq_of_lt-le d (ground arith) (omega (arith, h, suc-mul n d)) in
      let r : a % d ≡ a - n * d = mod-eq-sub-div-mul a d ∙ ap (λ m. a - m * d) q in
      rw (r, q, ltb-eq-true (2 * (a - n * d)) d h) refl
  | inr below ↦ rounded_up a d n k below
]

-- How far the rounding of a quotient by 1000 is from it.
round_half_even-1000 :
    (x : ℕ) → (round_half_even x 1000 * 1000 ≤ x + 500) × (x ≤ round_half_even x 1000 * 1000 + 500)
unfolding round_half_even
round_half_even-1000 x = ground arith

-- n, doubled k times.
abbrev doubled : ℕ → ℕ → ℕ
doubled zero n = n
doubled (suc k) n = doubled k (2 * n)

doubled-grows : (k n : ℕ) → n ≤ doubled k n
doubled-grows zero n = omega arith
doubled-grows (suc k) n = omega (arith, doubled-grows k (2 * n))

-- A number that stays below the bound when it is doubled k times is doubled as often.
fraction_bits-doubled :
    (fuel k n : ℕ) → k ≤ fuel → doubled k n < 2 ^ 53 * 1000 → k ≤ fraction_bits fuel n
unfolding fraction_bits
fraction_bits-doubled fuel zero n h b = omega arith
fraction_bits-doubled zero (suc k) n h b = absurd (omega arith)
fraction_bits-doubled (suc fuel) (suc k) n h b =
    let rest = fraction_bits-doubled fuel k (2 * n) (omega arith) b in
    let fits : ltb (2 * n) (2 ^ 53 * 1000) ≡ true =
      ltb-eq-true (2 * n) (2 ^ 53 * 1000) (omega (arith, doubled-grows k (2 * n))) in
    rw (fits, fraction_bits) (omega (arith, rest))

-- The rounding of n / 1000 to a float and back leaves n thousandths.
thousandths-exact : (n : ℕ) → n < 2 ^ 43 * 1000 → thousandths n ≡ n
unfolding thousandths
thousandths-exact n h =
    let below : ltb n (2 ^ 53 * 1000) ≡ true = ltb-eq-true n (2 ^ 53 * 1000) (omega (arith, h)) in
    let ten : 10 ≤ fraction_bits 63 n =
      fraction_bits-doubled 63 10 n (omega arith) (omega (arith, h)) in
    let large : 1024 ≤ 2 ^ fraction_bits 63 n = pow-le-pow_right {n = 2} (omega arith) ten in
    let (over, under) = round_half_even-1000 (n * 2 ^ fraction_bits 63 n) in
    rw (below, thousandths)
      (round_half_even-near (round_half_even (n * 2 ^ fraction_bits 63 n) 1000 * 1000)
        (2 ^ fraction_bits 63 n) n (omega (arith, over, under, large))
        (omega (arith, over, under, large)))

float_of-exact : (n : ℕ) → n < 2 ^ 53 → float_of n ≡ n
unfolding float_of spare_bits
float_of-exact n h =
    rw (ltb-eq-true n (2 ^ 53) h, spare_bits)
      (ap (λ m. m * 1) (round_half_even-near n 1 n (omega arith) (omega arith)) ∙ omega arith)

-- Below 2^43 seconds the text that a number of milliseconds is handed to isolate as is exactly that
-- number of thousandths of a second, written with three decimals, although it is computed with
-- floats.
pub milliseconds_as_seconds-exact :
    (n : ℕ) → n < 2 ^ 43 * 1000 → milliseconds_as_seconds (pos n) ≡ format_thousandths n
unfolding milliseconds_as_seconds
milliseconds_as_seconds-exact n h =
    ap format_thousandths
      (ap thousandths (float_of-exact n (omega (arith, h))) ∙ thousandths-exact n h)
