-- ===== src/Execution/Archive/Confinement.antt =====
-- The paths that extractAdditionalFiles of internal/execution/engine.go touches.
use batasd.Common.{
  ℕ, suc, ◌+◌, ◌≤◌, Bool, true, false, List, [], ◌∷◌, ◌++◌, ◌≡◌, refl, sym, ap, ◌∙◌, arith, inl,
  inr, length, length-take, ltb, leb, if◌then◌else◌, not,
}
use batasd.Common.Str.{Str}
use batasd.Common.Errors.{Error, Result, ok, err}
use batasd.Common.Effects.{Io, continue_with}
use batasd.Execution.Machine.{Machine, ZipFile}
use batasd.Execution.Paths.{safe_zip_target, path_clean}
use batasd.Execution.Paths.Confined.{GoesDown, IsRoot, safe_zip_target_cases}
use batasd.Execution.Archive.{
  max_extracted_bytes, dir_of, extract_zip_file, extract_entry, extract_next, extract_entries,
  limited_read, contains,
}
use batasd.Execution.Archive.Directories.{IsInside, dir_of-IsInside}

-- An invariant that the operations of the machine keep, as long as they stay inside the directory
-- and no file gets more than one byte beyond the limit.
pub record Keeps {W : Type 0} (m : Machine W) (root : Str) (P : W → Type 0) : Type 0 where
  pub mkdir :
      (path : Str) (mode : ℕ) (w : W) → IsInside root path → P w → P (m.mkdir_all path mode w).1
  pub create :
      (path : Str) (mode : ℕ) (w : W) → IsInside root path → P w → P (m.create_new path mode w).1
  pub fill :
      (path body : Str) (w : W)
      → IsInside root path
      → length body ≤ suc max_extracted_bytes
      → P w
      → P (m.write_new path body w).1

continue_with-keeps :
    {W A B : Type 0} (P : W → Type 0) (f : A → Io W B) (r : Result A) (v : W)
    → P v
    → ((a : A) → r ≡ ok a → P (f a v).1)
    → P (continue_with f r v).1
unfolding continue_with
continue_with-keeps P f (ok a) v p k = k a refl
continue_with-keeps P f (err e) v p k = p

branch-keeps :
    {W A : Type 0} (P : W → Type 0) (test : Bool) (x y : Io W A) (w : W)
    → (test ≡ true → P (x w).1)
    → (test ≡ false → P (y w).1)
    → P ((if test then x else y) w).1
branch-keeps P true x y w p q = p refl
branch-keeps P false x y w p q = q refl

module _ {W : Type 0} (m : Machine W) (root : Str) (P : W → Type 0) (keeps : Keeps m root P) where
  extract_zip_file-keeps :
      (file : ZipFile) (target : Str) (remaining : ℕ) (w : W)
      → IsInside root target
      → remaining ≤ max_extracted_bytes
      → P w
      → P (extract_zip_file m file target remaining w).1
  unfolding extract_zip_file
  extract_zip_file-keeps file target remaining w inside le p = continue_with-keeps P _ _ _ p λ _ _.
      continue_with-keeps P _ _ _ (keeps.create target 0o644 _ inside p) λ _ _.
        continue_with-keeps P _ _ _
          (keeps.fill target _ _ inside (omega (arith, length-take (suc remaining) file.body))
            (keeps.create target 0o644 _ inside p))
          λ _ _.
            continue_with-keeps P _ _ _ written
              λ _ _. branch-keeps P (ltb remaining _) _ _ _ (λ _. written) (λ _. written)
    where
      written :
          P
            (m.write_new target
              (limited_read (suc remaining) file.body file.broken).0
              (m.create_new target 0o644 w).1).1
      written =
          keeps.fill target _ _ inside (omega (arith, length-take (suc remaining) file.body))
            (keeps.create target 0o644 w inside p)

  extract_entry-keeps :
      (file : ZipFile) (target clean : Str) (extracted : ℕ) (w : W)
      → IsInside root target
      → IsInside root (dir_of target)
      → P w
      → P (extract_entry m file target clean extracted w).1
  unfolding extract_entry
  extract_entry-keeps file target clean extracted w inside parent p =
      branch-keeps P file.is_symlink _ _ w (λ _. p)
        λ _.
          branch-keeps P file.is_dir _ _ w
            (λ _.
              continue_with-keeps P _ _ _ (keeps.mkdir target 0o755 w inside p)
                λ _ _. keeps.mkdir target 0o755 w inside p)
            λ _.
              branch-keeps P (not file.is_regular) _ _ w (λ _. p)
                λ _. continue_with-keeps P _ _ _ made λ _ _.
                  branch-keeps P (leb max_extracted_bytes extracted) _ _ _ (λ _. made)
                    λ _. extract_zip_file-keeps file target _ _ inside (omega arith) made
    where
      made : P (m.mkdir_all (dir_of target) 0o755 w).1
      made = keeps.mkdir (dir_of target) 0o755 w parent p

  extract_next-keeps :
      (seen : List Str) (extracted : ℕ) (file : ZipFile) (w : W)
      → IsRoot root
      → P w
      → P (extract_next m root seen extracted file w).1
  unfolding extract_next
  extract_next-keeps seen extracted file w r p = elim (safe_zip_target_cases m root file.name w r) [
    | inl (_, e, refused) ↦
        continue_with-keeps P _ _ _ (rw refused p) λ found h. absurd (not_both e found refused h)
    | inr (down, accepted) ↦ continue_with-keeps P _ _ _ (rw accepted p) λ found h.
        rw (is_target found accepted h, accepted)
          (branch-keeps P (contains seen (path_clean file.name)) _ _ w (λ _. p)
            λ _. continue_with-keeps P _ _ _ (entry down) (λ _ _. entry down))
  ]
    where
      not_both :
          (e : Error) (found : Str × Str)
          → safe_zip_target m root file.name w ≡ (err e, w)
          → (safe_zip_target m root file.name w).0 ≡ ok found
          → ⊥
      not_both e found refused h =
          let same : err e ≡ ok found = sym (ap (λ t. t.0) refused) ∙ h in cc

      is_target :
          (found : Str × Str)
          → safe_zip_target m root file.name w
            ≡ (ok (root ++ (b'/' ∷ path_clean file.name), path_clean file.name), w)
          → (safe_zip_target m root file.name w).0 ≡ ok found
          → found ≡ (root ++ (b'/' ∷ path_clean file.name), path_clean file.name)
      is_target found accepted h =
          let same : ok found ≡ ok (root ++ (b'/' ∷ path_clean file.name), path_clean file.name) =
            sym h ∙ ap (λ t. t.0) accepted in
          cc

      entry :
          GoesDown (path_clean file.name)
          → P
              (extract_entry m file
                (root ++ (b'/' ∷ path_clean file.name))
                (path_clean file.name)
                extracted
                w).1
      entry down =
          extract_entry-keeps file _ _ extracted w (inr (path_clean file.name, down, refl))
            (dir_of-IsInside root (path_clean file.name) r down) p

  -- Whatever the archive holds and whether or not the extraction fails, it creates directories and
  -- files only inside the execution directory, and writes at most one byte more than 20 MiB to a
  -- file: every property that such operations keep is kept.
  pub extract_entries-keeps :
      (seen : List Str) (extracted : ℕ) (files : List ZipFile) (w : W)
      → IsRoot root
      → P w
      → P (extract_entries m root seen extracted files w).1
  unfolding extract_entries
  extract_entries-keeps seen extracted [] w r p = p
  extract_entries-keeps seen extracted (file ∷ files) w r p =
      continue_with-keeps P _ _ _ (extract_next-keeps seen extracted file w r p) λ done _.
        extract_entries-keeps (done.0 ∷ seen) (extracted + done.1) files _ r
          (extract_next-keeps seen extracted file w r p)
