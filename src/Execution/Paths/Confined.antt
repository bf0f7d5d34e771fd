-- ===== src/Execution/Paths/Confined.antt =====
-- The paths that safeZipTarget of internal/execution/engine.go returns.
use mathlib.Core.List.{append_assoc}
use batasd.Common.{
  Bool, true, false, List, [], ◌∷◌, ◌++◌, any, ◌≡◌, ◌⊎◌, inl, inr, refl, sym, ap, ◌∙◌, arith, All,
  All-append, ◌==◌, Bool-cases,
}
use batasd.Common.Str.{Str, lit, str_eq}
use batasd.Common.Errors.{Error, other, ok, err}
use batasd.Common.Effects.{continue_with}
use batasd.Execution.Machine.{Machine}
use batasd.Execution.Paths.{
  split_slash, join_slash, clean_parts, is_abs, path_clean, has_prefix, join_path, abs_path,
  within_root, is_forbidden, safe_zip_target, print_path, not_allowed,
}
use batasd.Execution.Paths.Clean.{
  IsPart, IsCleaned, clean_parts-split_slash-IsCleaned, join_slash-append, path_clean-rooted,
}

-- A path that goes down from where it starts: parts that are no `.` or `..`, one or more.
pub record GoesDown (clean : Str) : Type 0 where
  pub part : Str
  pub parts : List Str
  pub printed : clean ≡ join_slash (part ∷ parts)
  pub down : All IsPart (part ∷ parts)

-- The directory, as filepath.Abs gives it: rooted and clean, and not the root itself.
pub record IsRoot (root : Str) : Type 0 where
  pub part : Str
  pub parts : List Str
  pub printed : root ≡ b'/' ∷ join_slash (part ∷ parts)
  pub down : All IsPart (part ∷ parts)

has_prefix-append : (s t : Str) → has_prefix (s ++ t) s ≡ true
unfolding has_prefix
has_prefix-append [] [] = refl
has_prefix-append [] (c ∷ t) = refl
has_prefix-append (a ∷ s) t = ground (arith, has_prefix-append s t)

-- A cleaned path that begins with `..` is refused.
is_forbidden-up : (rest : List Str) → is_forbidden (join_slash (lit ".." ∷ rest)) ≡ true
unfolding is_forbidden join_slash has_prefix is_abs str_eq
is_forbidden-up [] = refl
is_forbidden-up (part ∷ rest) = ground arith

is_forbidden-rooted : (s : Str) → is_forbidden (b'/' ∷ s) ≡ true
unfolding is_forbidden is_abs str_eq
is_forbidden-rooted s = ground arith

is_forbidden-here : is_forbidden (lit ".") ≡ true
unfolding is_forbidden str_eq
is_forbidden-here = refl

print_path-GoesDown :
    (parts : List Str)
    → IsCleaned parts
    → is_forbidden (print_path false parts) ≡ false
    → GoesDown (print_path false parts)
print_path-GoesDown [] c h = absurd (cc is_forbidden-here)
print_path-GoesDown (part ∷ parts) (inl all) h = record {
  part = part;
  parts = parts;
  printed = refl;
  down = all;
}
print_path-GoesDown (part ∷ parts) (inr (rest, e)) h =
    let up : is_forbidden (join_slash (part ∷ parts)) ≡ true = rw e (is_forbidden-up rest) in
    absurd (cc)

not_forbidden-GoesDown :
    (name : Str) → is_forbidden (path_clean name) ≡ false → GoesDown (path_clean name)
unfolding path_clean
not_forbidden-GoesDown name h = go (is_abs name) (clean_parts-split_slash-IsCleaned name) h
  where
    go :
        (rooted : Bool)
        → IsCleaned (clean_parts false [] (split_slash name))
        → is_forbidden (print_path rooted (clean_parts rooted [] (split_slash name))) ≡ false
        → GoesDown (print_path rooted (clean_parts rooted [] (split_slash name)))
    go true c h =
        absurd (cc (is_forbidden-rooted (join_slash (clean_parts true [] (split_slash name)))))
    go false c h = print_path-GoesDown _ c h

-- Joining such a path to the directory appends it, and filepath.Abs changes nothing more.
module _ {W : Type 0} (m : Machine W) (root clean : Str) (r : IsRoot root)
    (g : GoesDown clean) where
  below : root ++ (b'/' ∷ clean) ≡ b'/' ∷ join_slash (r.part ∷ (r.parts ++ (g.part ∷ g.parts)))
  below =
      ap₂' r.printed g.printed
      ∙ ap (◌∷◌ b'/') (sym (join_slash-append r.part r.parts g.part g.parts))
    where
      ap₂' : {a a' c c' : Str} → a ≡ a' → c ≡ c' → a ++ (b'/' ∷ c) ≡ a' ++ (b'/' ∷ c')
      ap₂' e f = rw (e, f)

  join_path_lem : join_path root clean ≡ root ++ (b'/' ∷ clean)
  unfolding join_path
  join_path_lem =
      ap path_clean below
      ∙ (path_clean-rooted r.part (r.parts ++ (g.part ∷ g.parts))
            (All-append IsPart (r.part ∷ r.parts) (g.part ∷ g.parts) r.down g.down)
          ∙ sym below)

  abs_path_lem : (w : W) → abs_path m (root ++ (b'/' ∷ clean)) w ≡ (ok (root ++ (b'/' ∷ clean)), w)
  unfolding abs_path is_abs
  abs_path_lem w = rw below (
      rw (
        path_clean-rooted r.part (r.parts ++ (g.part ∷ g.parts))
          (All-append IsPart (r.part ∷ r.parts) (g.part ∷ g.parts) r.down g.down)))

  within_root_lem :
      (name : Str) (w : W)
      → within_root m root name clean (root ++ (b'/' ∷ clean)) w
        ≡ (ok (root ++ (b'/' ∷ clean), clean), w)
  unfolding within_root
  within_root_lem name w =
      let inside : has_prefix (root ++ (b'/' ∷ clean)) (root ++ lit "/") ≡ true =
        rw (← (append_assoc root (lit "/") clean)) (has_prefix-append (root ++ lit "/") clean) in
      rw inside (ground arith)

-- Why an entry's name can be refused.
abbrev pub IsRefused : Str → Type 0
IsRefused name =
    (name ≡ []) ⊎ ((any (λ c. c == b'\\') name ≡ true) ⊎ (is_forbidden (path_clean name) ≡ true))

-- For an execution directory that is rooted, clean and not the root, safeZipTarget either refuses
-- the name, because it is empty, holds a backslash or is cleaned to a path that is ".", "..",
-- rooted or starts with "../"; or it returns the cleaned name, whose parts all go down, and the
-- directory with that name appended. Neither changes the world.
pub safe_zip_target_cases :
    {W : Type 0} (m : Machine W) (root name : Str) (w : W)
    → IsRoot root
    → (IsRefused name × (e : Error) × (safe_zip_target m root name w ≡ (err e, w)))
      ⊎ (GoesDown (path_clean name)
          × (safe_zip_target m root name w
              ≡ (ok (root ++ (b'/' ∷ path_clean name), path_clean name), w)))
unfolding safe_zip_target continue_with str_eq
safe_zip_target_cases m root [] w r =
    inl (inl refl, other (lit "additional_files contains an empty path"), refl)
safe_zip_target_cases m root (c ∷ s) w r = elim (Bool-cases (any (λ c. c == b'\\') (c ∷ s))) [
  | inl slash ↦
      inl
        (inr (inl slash), not_allowed m (c ∷ s) (lit " cannot contain backslashes"), rw slash refl)
  | inr plain ↦ elim (Bool-cases (is_forbidden (path_clean (c ∷ s)))) [
    | inl bad ↦
        inl (inr (inr bad), not_allowed m (c ∷ s) (lit " is not allowed"), rw (plain, bad) refl)
    | inr good ↦
        let g = not_forbidden-GoesDown (c ∷ s) good in
        inr (
          g,
          rw
              (
                plain,
                good,
                join_path_lem m root (path_clean (c ∷ s)) r g,
                abs_path_lem m root (path_clean (c ∷ s)) r g w,
              )
              (within_root_lem m root _ r g (c ∷ s) w),
        )
  ]
]
