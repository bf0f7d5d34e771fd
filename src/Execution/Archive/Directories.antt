-- ===== src/Execution/Archive/Directories.antt =====
-- The parents of the paths that extractAdditionalFiles of internal/execution/engine.go creates.
use mathlib.Core.List.{append_assoc, append-nil, reverse-append, reverse-cons, reverse-reverse}
use batasd.Common.{
  ℕ, List, [], ◌∷◌, ◌++◌, reverse, ◌≡◌, refl, sym, ap, ◌∙◌, arith, ◌⊎◌, inl, inr, All, All-reverse,
}
use batasd.Common.Str.{Str}
use batasd.Execution.Paths.{join_slash}
use batasd.Execution.Paths.Clean.{NoSlash, IsPart}
use batasd.Execution.Paths.Confined.{GoesDown, IsRoot}
use batasd.Execution.Archive.{drop_part, dir_of}

-- The directory itself, or a path that goes down from it.
abbrev pub IsInside : Str → Str → Type 0
IsInside root path =
    (path ≡ root) ⊎ ((clean : Str) × GoesDown clean × (path ≡ root ++ (b'/' ∷ clean)))

drop_part-append : (q s : Str) → NoSlash q → drop_part (q ++ (b'/' ∷ s)) ≡ s
unfolding drop_part
drop_part-append [] s h = refl
drop_part-append (c ∷ q) s h = ground (arith, drop_part-append q s h.1)

reverse-middle : (s p : Str) → reverse (s ++ (b'/' ∷ p)) ≡ reverse p ++ (b'/' ∷ reverse s)
reverse-middle s p =
    reverse-append s (b'/' ∷ p)
    ∙ (ap (λ t. t ++ reverse s) (reverse-cons b'/' p)
        ∙ append_assoc (reverse p) (b'/' ∷ []) (reverse s))

-- The directory of a path is what stands before its last slash.
dir_of-append : (c : ℕ) (s p : Str) → NoSlash p → dir_of ((c ∷ s) ++ (b'/' ∷ p)) ≡ c ∷ s
unfolding dir_of
dir_of-append c s p h =
    let dropped : reverse (drop_part (reverse ((c ∷ s) ++ (b'/' ∷ p)))) ≡ c ∷ s =
      ap (λ t. reverse (drop_part t)) (reverse-middle (c ∷ s) p)
      ∙ (ap reverse (drop_part-append (reverse p) (reverse (c ∷ s)) (All-reverse _ p h))
          ∙ reverse-reverse (c ∷ s)) in
    rw dropped refl

-- Parts behind a directory.
abbrev below : List Str → Str
below [] = []
below (part ∷ parts) = b'/' ∷ (part ++ below parts)

below-join_slash :
    (part : Str) (parts : List Str) → below (part ∷ parts) ≡ b'/' ∷ join_slash (part ∷ parts)
unfolding join_slash
below-join_slash part [] = ap (◌∷◌ b'/') (append-nil part)
below-join_slash part (next ∷ parts) = ap (λ t. b'/' ∷ (part ++ t)) (below-join_slash next parts)

dir_of-below :
    (c : ℕ) (s part : Str) (parts : List Str)
    → All IsPart (part ∷ parts)
    → (up : List Str) × All IsPart up
      × (dir_of ((c ∷ s) ++ below (part ∷ parts)) ≡ (c ∷ s) ++ below up)
dir_of-below c s part [] a = (
  [],
  tt,
  ap (λ t. dir_of ((c ∷ s) ++ (b'/' ∷ t))) (append-nil part)
      ∙ (dir_of-append c s part a.0.no_slash ∙ sym (append-nil (c ∷ s))),
)
dir_of-below c s part (next ∷ parts) a =
    let (up, all, e) = dir_of-below c (s ++ (b'/' ∷ part)) next parts a.1 in
    (
      part ∷ up,
      (a.0, all),
      ap dir_of (sym (append_assoc (c ∷ s) (b'/' ∷ part) (below (next ∷ parts))))
          ∙ (e ∙ append_assoc (c ∷ s) (b'/' ∷ part) (below up)),
    )

below-IsInside :
    (root : Str) (parts : List Str) → All IsPart parts → IsInside root (root ++ below parts)
below-IsInside root [] a = inl (append-nil root)
below-IsInside root (part ∷ parts) a = inr (
  join_slash (part ∷ parts),
  record { part = part; parts = parts; printed = refl; down = a },
  ap (◌++◌ root) (below-join_slash part parts),
)

pub dir_of-IsInside :
    (root clean : Str)
    → IsRoot root
    → GoesDown clean
    → IsInside root (dir_of (root ++ (b'/' ∷ clean)))
dir_of-IsInside root clean r g =
    let shape : root ≡ b'/' ∷ join_slash (r.part ∷ r.parts) = r.printed in
    let rooted = dir_of-below b'/' (join_slash (r.part ∷ r.parts)) g.part g.parts g.down in
    let same : dir_of (root ++ (b'/' ∷ clean)) ≡ root ++ below rooted.0 =
      rw (g.printed, shape, ← (below-join_slash g.part g.parts)) rooted.2 in
    rw same (below-IsInside root rooted.0 rooted.1)
