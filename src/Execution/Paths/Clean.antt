-- ===== src/Execution/Paths/Clean.antt =====
-- The paths that path.Clean returns, for safeZipTarget of internal/execution/engine.go.
use mathlib.Core.List.{reverse-cons, append-nil, append_assoc}
use batasd.Common.{
  Bool, true, false, List, [], ◌∷◌, ◌++◌, reverse, ◌≡◌, ◌≢◌, ◌⊎◌, inl, inr, refl, sym, ap, ◌∙◌,
  arith, All, ◌==◌, Bool-cases,
}
use batasd.Common.Str.{Str, lit, str_eq, str_eq_iff}
use batasd.Execution.Paths.{
  split_slash, join_slash, clean_part, clean_parts, path_clean, push_front, step_back,
}

abbrev pub NoSlash : Str → Type 0
NoSlash s = All (λ c. c ≢ b'/') s

-- A part that stays in the directory that it is joined to.
pub record IsPart (part : Str) : Type 0 where
  pub nonempty : part ≢ []
  pub not_here : part ≢ lit "."
  pub not_up : part ≢ lit ".."
  pub no_slash : NoSlash part

split_slash-NoSlash : (s : Str) → All NoSlash (split_slash s)
unfolding split_slash
split_slash-NoSlash [] = (tt, tt)
split_slash-NoSlash (c ∷ s) = elim (Bool-cases (c == b'/')) [
  | inl slash ↦ rw (slash, split_slash) (tt, split_slash-NoSlash s)
  | inr other ↦
      rw (other, split_slash) (front (split_slash s) (ground arith) (split_slash-NoSlash s))
]
  where
    front : (parts : List Str) → c ≢ b'/' → All NoSlash parts → All NoSlash (push_front c parts)
    front [] h a = ((h, tt), tt)
    front (part ∷ parts) h a = ((h, a.0), a.1)

-- The parts of an unrooted path so far, the last first: some parts over a run of `..`.
abbrev AllUps : List Str → Type 0
AllUps stack = All (λ part. part ≡ lit "..") stack

abbrev IsStack : List Str → Type 0
IsStack [] = Unit
IsStack (part ∷ stack) = (IsPart part × IsStack stack) ⊎ ((part ≡ lit "..") × AllUps stack)

AllUps-IsStack : (stack : List Str) → AllUps stack → IsStack stack
AllUps-IsStack [] h = tt
AllUps-IsStack (part ∷ stack) h = inr h

step_back-IsStack : (stack : List Str) → IsStack stack → IsStack (step_back false stack)
step_back-IsStack [] h = inr (refl, tt)
step_back-IsStack (part ∷ stack) (inl (p, h)) = elim (Bool-cases (str_eq part (lit ".."))) [
  | inl same ↦ absurd (p.not_up ((str_eq_iff part (lit "..")).0 same))
  | inr differs ↦ rw differs h
]
step_back-IsStack (part ∷ stack) (inr (up, h)) =
    rw ((str_eq_iff part (lit "..")).1 up) (inr (refl, (up, h)))

clean_part-IsStack :
    (stack : List Str) (part : Str)
    → IsStack stack
    → NoSlash part
    → IsStack (clean_part false stack part)
unfolding clean_part
clean_part-IsStack stack [] h k = h
clean_part-IsStack stack (c ∷ s) h k = elim (Bool-cases (str_eq (c ∷ s) (lit "."))) [
  | inl here ↦ rw (here, clean_part) h
  | inr not_here ↦ elim (Bool-cases (str_eq (c ∷ s) (lit ".."))) [
    | inl up ↦ rw (not_here, up, clean_part) (step_back-IsStack stack h)
    | inr not_up ↦
        rw (not_here, not_up, clean_part)
          (inl (
            record {
              nonempty = λ e. cc;
              not_here = λ e. cc ((str_eq_iff (c ∷ s) (lit ".")).1 e);
              not_up = λ e. cc ((str_eq_iff (c ∷ s) (lit "..")).1 e);
              no_slash = k;
            },
            h,
          ))
  ]
]

-- Either a leading `..` or parts alone.
abbrev pub IsCleaned : List Str → Type 0
IsCleaned parts = All IsPart parts ⊎ ((rest : List Str) × (parts ≡ lit ".." ∷ rest))

IsCleaned-snoc :
    (part : Str) (stack : List Str) (rest : List Str)
    → reverse stack ≡ lit ".." ∷ rest
    → IsCleaned (reverse (part ∷ stack))
IsCleaned-snoc part stack rest e = rw (reverse-cons part stack, e) (inr (rest ++ part ∷ [], refl))

AllUps-reverse :
    (part : Str) (stack : List Str)
    → part ≡ lit ".."
    → AllUps stack
    → (rest : List Str) × (reverse (part ∷ stack) ≡ lit ".." ∷ rest)
AllUps-reverse part [] up h = ([], rw up)
AllUps-reverse part (next ∷ stack) up h =
    let (rest, e) = AllUps-reverse next stack h.0 h.1 in
    (rest ++ part ∷ [], rw (reverse-cons part (next ∷ stack), e))

reverse-IsCleaned : (stack : List Str) → IsStack stack → IsCleaned (reverse stack)
reverse-IsCleaned [] h = inl tt
reverse-IsCleaned (part ∷ stack) (inl (p, h)) = elim (reverse-IsCleaned stack h) [
  | inl all ↦ rw (reverse-cons part stack) (inl (snoc (reverse stack) all))
  | inr (rest, e) ↦ IsCleaned-snoc part stack rest e
]
  where
    snoc : (parts : List Str) → All IsPart parts → All IsPart (parts ++ part ∷ [])
    snoc [] a = (p, tt)
    snoc (q ∷ parts) a = (a.0, snoc parts a.1)
reverse-IsCleaned (part ∷ stack) (inr (up, h)) = inr (AllUps-reverse part stack up h)

clean_parts-IsCleaned :
    (stack parts : List Str)
    → IsStack stack
    → All NoSlash parts
    → IsCleaned (clean_parts false stack parts)
unfolding clean_parts
clean_parts-IsCleaned stack [] h k = reverse-IsCleaned stack h
clean_parts-IsCleaned stack (part ∷ parts) h k =
    clean_parts-IsCleaned (clean_part false stack part) parts (clean_part-IsStack stack part h k.0)
      k.1

-- An unrooted path is cleaned to parts that go down only, or to a path that starts with `..`.
pub clean_parts-split_slash-IsCleaned : (s : Str) → IsCleaned (clean_parts false [] (split_slash s))
clean_parts-split_slash-IsCleaned s =
    clean_parts-IsCleaned [] (split_slash s) tt (split_slash-NoSlash s)

clean_part_of_IsPart :
    (rooted : Bool) (stack : List Str) (part : Str)
    → IsPart part
    → clean_part rooted stack part ≡ part ∷ stack
unfolding clean_part
clean_part_of_IsPart rooted stack [] p = absurd (p.nonempty refl)
clean_part_of_IsPart rooted stack (c ∷ s) p =
    ground
      (arith, str_eq_iff (c ∷ s) (lit "."), str_eq_iff (c ∷ s) (lit ".."), p.not_here, p.not_up)

pub clean_parts_of_IsPart :
    (rooted : Bool) (stack parts : List Str)
    → All IsPart parts
    → clean_parts rooted stack parts ≡ reverse stack ++ parts
unfolding clean_parts
clean_parts_of_IsPart rooted stack [] a = sym (append-nil (reverse stack))
clean_parts_of_IsPart rooted stack (part ∷ parts) a =
    ap (λ t. clean_parts rooted t parts) (clean_part_of_IsPart rooted stack part a.0)
    ∙ (clean_parts_of_IsPart rooted (part ∷ stack) parts a.1 ∙ simp (reverse-cons, append_assoc))

split_slash_of_NoSlash : (p : Str) → NoSlash p → split_slash p ≡ p ∷ []
unfolding split_slash
split_slash_of_NoSlash [] h = refl
split_slash_of_NoSlash (c ∷ p) h = ground (arith, split_slash_of_NoSlash p h.1)

split_slash-append : (p s : Str) → NoSlash p → split_slash (p ++ (b'/' ∷ s)) ≡ p ∷ split_slash s
unfolding split_slash
split_slash-append [] s h = refl
split_slash-append (c ∷ p) s h = ground (arith, split_slash-append p s h.1)

pub split_slash-join_slash :
    (part : Str) (parts : List Str)
    → All IsPart (part ∷ parts)
    → split_slash (join_slash (part ∷ parts)) ≡ part ∷ parts
unfolding join_slash
split_slash-join_slash part [] a = split_slash_of_NoSlash part a.0.no_slash
split_slash-join_slash part (next ∷ parts) a =
    split_slash-append part (join_slash (next ∷ parts)) a.0.no_slash
    ∙ ap (◌∷◌ part) (split_slash-join_slash next parts a.1)

pub join_slash-append :
    (part : Str) (parts : List Str) (next : Str) (more : List Str)
    → join_slash (part ∷ (parts ++ (next ∷ more)))
      ≡ join_slash (part ∷ parts) ++ (b'/' ∷ join_slash (next ∷ more))
unfolding join_slash
join_slash-append part [] next more = refl
join_slash-append part (q ∷ parts) next more =
    ap (λ s. part ++ (b'/' ∷ s)) (join_slash-append q parts next more)
    ∙ sym (append_assoc part (b'/' ∷ join_slash (q ∷ parts)) (b'/' ∷ join_slash (next ∷ more)))

-- A rooted path of such parts is its own cleaning.
pub path_clean-rooted :
    (part : Str) (parts : List Str)
    → All IsPart (part ∷ parts)
    → path_clean (b'/' ∷ join_slash (part ∷ parts)) ≡ b'/' ∷ join_slash (part ∷ parts)
unfolding path_clean split_slash clean_parts
path_clean-rooted part parts a =
    rw (split_slash-join_slash part parts a, clean_parts_of_IsPart true [] (part ∷ parts) a)
