-- ===== src/Sandbox/Output/Laws.antt =====
-- internal/sandbox/output.go: what a buffer holds behind a sequence of writes.
use mathlib.Core.List.{append_assoc, append-nil, flatten}
use batasd.Common.{
  ◌*◌, ◌^◌, ℕ, zero, suc, ◌+◌, ◌-◌, ◌≤◌, ◌<◌, ◌≡◌, refl, ap, sym, ◌∙◌, Bool, List, [], ◌∷◌, ◌++◌,
  not, length, take, take_cong, length-append, length-take, take-append, take_all, if◌then◌else◌,
  ltb, leb, arith, Bool-cases, inl, inr, ◌&&◌, ◌||◌, min,
}
use batasd.Submission.Model.{Limits}
use batasd.Common.Int.{ℤ, negsuc, scale_int64_pos, leb_ℤ_iff, ◌≤ℤ◌, ◌<ℤ◌, pos}
use batasd.Common.Str.{Str}
use batasd.Sandbox.Output.{
  OutputBuffer, new_output_buffer, write, write_all, available, store, max_output_bytes,
  default_max_output_bytes,
}

-- What the critical section does to a buffer of n bytes that is not over its cap.
module _ (n : ℕ) (b : OutputBuffer) (p : Str) (limited : b.limit ≡ pos n)
    (fits : length b.buf ≤ n) where
  available_lem : available b ≡ pos (n - length b.buf)
  unfolding available
  available_lem = rw limited (ground arith)

  store-buf : (store b p).buffer.buf ≡ b.buf ++ take (n - length b.buf) p
  unfolding store take
  store-buf = elim (Bool-cases (ltb 0 (n - length b.buf))) [
    | inl room ↦ elim (Bool-cases (leb (length p) (n - length b.buf))) [
      | inl whole ↦
          rw (available_lem, room, whole, store)
            (ap (◌++◌ b.buf) (sym (take_all (n - length b.buf) p (ground arith))))
      | inr cut ↦ rw (available_lem, room, cut, store)
    ]
    | inr full ↦ elim (Bool-cases (ltb 0 (length p))) [
      | inl some_bytes ↦
          rw (available_lem, full, some_bytes, store) (sym (none_left (ground arith)))
      | inr empty ↦ rw (available_lem, full, empty, store) (sym (none_left (ground arith)))
    ]
  ]
    where
      none_left : n - length b.buf ≡ 0 → b.buf ++ take (n - length b.buf) p ≡ b.buf
      none_left e = rw e (append-nil b.buf)

  store-flags :
      ((store b p).buffer.exceeded ≡ (b.exceeded || ltb n (length b.buf + length p)))
      × ((store b p).overflow ≡ (not b.exceeded && ltb n (length b.buf + length p)))
      × ((store b p).buffer.limit ≡ b.limit)
      × ((store b p).buffer.has_on_limit ≡ b.has_on_limit)
  unfolding store
  store-flags = rw (available_lem, store) (ground arith)

-- The buffer holds the first n bytes of `written`, and knows whether bytes are missing.
pub record Holds (n : ℕ) (on_limit : Bool) (written : Str) (b : OutputBuffer) : Type 0 where
  pub kept : b.buf ≡ take n written
  pub limited : b.limit ≡ pos n
  pub flagged : b.exceeded ≡ ltb n (length written)
  pub callback : b.has_on_limit ≡ on_limit

module _ (n : ℕ) (on_limit : Bool) (written p : Str) (b : OutputBuffer)
    (h : Holds n on_limit written b) where
  length-buf : length b.buf ≡ min n (length written)
  length-buf = rw h.kept (length-take n written)

  write-Holds : Holds n on_limit (written ++ p) (write b p).buffer
  unfolding write
  write-Holds =
      let fits : length b.buf ≤ n = omega (arith, length-buf) in
      let flags = store-flags n b p h.limited fits in
      record {
        kept = store-buf n b p h.limited fits ∙ kept_lem;
        limited = flags.2 ∙ h.limited;
        flagged = ground (arith, flags.0, h.flagged, length-buf, length-append written p);
        callback = flags.3 ∙ h.callback;
      }
    where
      kept_lem : b.buf ++ take (n - length b.buf) p ≡ take n (written ++ p)
      kept_lem =
          rw (take-append n written p, h.kept)
            (ap (◌++◌ (take n written)) (
              take_cong {m = n - length (take n written)} {n = n - length written} p
                (omega (arith, length-take n written))))

  -- The callback runs on the write that crosses the cap, and on no other.
  write-called :
      (write b p).called
      ≡ (on_limit && (not (ltb n (length written)) && ltb n (length (written ++ p))))
  unfolding write
  write-called =
      let fits : length b.buf ≤ n = omega (arith, length-buf) in
      let flags = store-flags n b p h.limited fits in
      ground (arith, flags.1, h.flagged, h.callback, length-buf, length-append written p)

new_output_buffer-Holds :
    (n : ℕ) (on_limit : Bool) → 0 < n → Holds n on_limit [] (new_output_buffer (pos n) on_limit)
unfolding new_output_buffer take
new_output_buffer-Holds zero on_limit h = elim h [ ]
new_output_buffer-Holds (suc n) on_limit h = record {
  kept = refl;
  limited = ground arith;
  flagged = ground arith;
  callback = refl;
}

write_all-Holds :
    (n : ℕ) (on_limit : Bool) (written : Str) (b : OutputBuffer) (ps : List Str)
    → Holds n on_limit written b
    → Holds n on_limit (written ++ flatten ps) (write_all b ps).0
      × ((write_all b ps).1 ≡ (
          if on_limit && (not (ltb n (length written)) && ltb n (length (written ++ flatten ps)))
          then 1
          else 0))
unfolding write_all flatten
write_all-Holds n on_limit written b [] h = (rw append-nil h, rw append-nil (ground arith))
write_all-Holds n on_limit written b (p ∷ ps) h =
    let ih =
      write_all-Holds n on_limit (written ++ p) (write b p).buffer ps
        (write-Holds n on_limit written p b h) in
    let called = write-called n on_limit written p b h in
    rw (← append_assoc written p (flatten ps)) (
      ih.0,
      ground
          (arith, ih.1, called, length-append written p, length-append (written ++ p) (flatten ps)),
    )

-- Whatever the sizes of the writes, a new buffer with a positive cap of n bytes ends up with the
-- first n bytes of the whole output, has `exceeded` set exactly when the output is longer, and has
-- called `onLimit`, if it is set, once in that case and never otherwise.
pub write_all-new_output_buffer :
    (n : ℕ) (on_limit : Bool) (ps : List Str)
    → 0 < n
    → let r = write_all (new_output_buffer (pos n) on_limit) ps in
      (r.0.buf ≡ take n (flatten ps))
      × (r.0.exceeded ≡ ltb n (length (flatten ps)))
      × (r.1 ≡ (if on_limit && ltb n (length (flatten ps)) then 1 else 0))
write_all-new_output_buffer n on_limit ps h =
    let r = write_all-Holds n on_limit [] _ ps (new_output_buffer-Holds n on_limit h) in
    (r.0.kept, r.0.flagged, r.1 ∙ ground arith)

-- The cap in force for a run is positive for every limits record: the configured kilobytes, where
-- these fit an int64 as bytes, and the default mebibyte where none are configured.
pub limit-max_output_bytes :
    (limits : Limits) (on_limit : Bool)
    → (pos 0 <ℤ (new_output_buffer (max_output_bytes limits) on_limit).limit)
      × ((n : ℕ)
          → limits.max_output_kb ≡ pos n
          → 0 < n
          → n * 1024 < 2 ^ 63
          → (new_output_buffer (max_output_bytes limits) on_limit).limit ≡ pos (n * 1024))
      × (limits.max_output_kb ≤ℤ pos 0
          → (new_output_buffer (max_output_bytes limits) on_limit).limit ≡ default_max_output_bytes)
unfolding new_output_buffer max_output_bytes
limit-max_output_bytes limits on_limit = (
  cap_pos (max_output_bytes limits),
  λ n e p fits. rw (e, max_output_bytes) (ground (arith, scale_int64_pos 1024 n fits)),
  λ none_set. rw ((leb_ℤ_iff limits.max_output_kb (pos 0)).1 none_set, max_output_bytes) refl,
)
  where
    cap_pos : (cap : ℤ) → pos 0 <ℤ (new_output_buffer cap on_limit).limit
    cap_pos (pos n) = ground arith
    cap_pos (negsuc n) = ground arith
