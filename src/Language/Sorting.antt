-- ===== src/Language/Sorting.antt =====
-- sort.Slice by a string key, for internal/language/registry.go. The keys are distinct there, so an
-- insertion sort stands for any other.
use mathlib.Core.List.{Memᴰ}
use batasd.Common.{
  Bool, true, false, ◌||◌, ◌&&◌, List, [], ◌∷◌, if◌then◌else◌, ltb, ◌==◌, All, refl, Bool-cases,
  inl, inr,
}
use batasd.Common.Str.{Str}

-- `<` on strings.
unfoldable pub str_lt : Str → Str → Bool
str_lt s [] = false
str_lt [] (b ∷ t) = true
str_lt (a ∷ s) (b ∷ t) = ltb a b || (a == b && str_lt s t)

module _ {A : Type 0} (key : A → Str) where
  unfoldable pub insert_by : A → List A → List A
  unfolding str_lt
  insert_by x [] = x ∷ []
  insert_by x (y ∷ ys) = if str_lt (key x) (key y) then x ∷ y ∷ ys else y ∷ insert_by x ys

  unfoldable pub sort_by : List A → List A
  unfolding insert_by
  sort_by [] = []
  sort_by (x ∷ xs) = insert_by x (sort_by xs)

  insert_by-Memᴰ_head : (x : A) (ys : List A) → Memᴰ x (insert_by x ys)
  unfolding insert_by
  insert_by-Memᴰ_head x [] = Memᴰ.head refl
  insert_by-Memᴰ_head x (y ∷ ys) = elim (Bool-cases (str_lt (key x) (key y))) [
    | inl before ↦ rw (before, insert_by) (Memᴰ.head refl)
    | inr behind ↦ rw (behind, insert_by) (Memᴰ.tail (insert_by-Memᴰ_head x ys))
  ]

  insert_by-Memᴰ : (a x : A) (ys : List A) → Memᴰ a ys → Memᴰ a (insert_by x ys)
  unfolding insert_by
  insert_by-Memᴰ a x [] m = elim m [ ]
  insert_by-Memᴰ a x (y ∷ ys) (Memᴰ.head e) = elim (Bool-cases (str_lt (key x) (key y))) [
    | inl before ↦ rw (before, insert_by) (Memᴰ.tail (Memᴰ.head e))
    | inr behind ↦ rw (behind, insert_by) (Memᴰ.head e)
  ]
  insert_by-Memᴰ a x (y ∷ ys) (Memᴰ.tail t) =
      let later = insert_by-Memᴰ a x ys t in
      elim (Bool-cases (str_lt (key x) (key y))) [
        | inl before ↦ rw (before, insert_by) (Memᴰ.tail (Memᴰ.tail t))
        | inr behind ↦ rw (behind, insert_by) (Memᴰ.tail later)
      ]

  -- Sorting loses nothing.
  pub sort_by-Memᴰ : (a : A) (xs : List A) → Memᴰ a xs → Memᴰ a (sort_by xs)
  unfolding sort_by
  sort_by-Memᴰ a [] m = elim m [ ]
  sort_by-Memᴰ a (x ∷ xs) (Memᴰ.head e) = rw e (insert_by-Memᴰ_head x (sort_by xs))
  sort_by-Memᴰ a (x ∷ xs) (Memᴰ.tail t) = insert_by-Memᴰ a x (sort_by xs) (sort_by-Memᴰ a xs t)

  insert_by-All : (P : A → Type 0) (x : A) (ys : List A) → P x → All P ys → All P (insert_by x ys)
  unfolding insert_by
  insert_by-All P x [] p a = (p, tt)
  insert_by-All P x (y ∷ ys) p a = elim (Bool-cases (str_lt (key x) (key y))) [
    | inl before ↦ rw (before, insert_by) (p, a)
    | inr behind ↦ rw (behind, insert_by) (a.0, insert_by-All P x ys p a.1)
  ]

  -- And adds nothing.
  pub sort_by-All : (P : A → Type 0) (xs : List A) → All P xs → All P (sort_by xs)
  unfolding sort_by
  sort_by-All P [] a = tt
  sort_by-All P (x ∷ xs) a = insert_by-All P x (sort_by xs) a.0 (sort_by-All P xs a.1)
