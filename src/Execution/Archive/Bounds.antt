-- ===== src/Execution/Archive/Bounds.antt =====
-- The sizes of what extractAdditionalFiles of internal/execution/engine.go extracts.
use batasd.Common.{
  ℕ, suc, ◌+◌, ◌-◌, ◌≤◌, List, [], ◌∷◌, ◌≡◌, ap, sym, ◌∙◌, take, length-take, arith, length, ltb,
  leb, if◌then◌else◌, Bool-cases, inl, inr,
}
use batasd.Common.Str.{Str, lit, str_eq}
use batasd.Common.Errors.{Error, Result, ok, err}
use batasd.Common.Effects.{lift, return, continue_with-eq-ok, ok-injective, ok≢err, with_world}
use batasd.Submission.Model.{AdditionalFiles}
use batasd.Execution.Machine.{Machine, ZipFile}
use batasd.Execution.Archive.{
  max_extracted_bytes, extract_zip_file, extract_entry, extract_next, extract_entries,
  extract_additional_files, contains, open_archive, max_entries, check_entries, open_decoded,
  decode_archive,
}

-- The bytes of an entry that are extracted: none for a directory.
abbrev pub size_of : ZipFile → ℕ
size_of file = if file.is_dir then 0 else length file.body

abbrev pub total_size : List ZipFile → ℕ
total_size [] = 0
total_size (file ∷ files) = size_of file + total_size files

module _ {W : Type 0} where
  -- The last test of extractZipFile, on k bytes read under a limit of one more than `remaining`.
  checked :
      (body : Str) (remaining n : ℕ) (e : Error) (v w' : W)
      → (if ltb remaining (length (take (suc remaining) body))
            then lift {W = W} {A = ℕ} (err e)
            else return (length (take (suc remaining) body)))
          v
        ≡ (ok n, w')
      → (n ≤ remaining) × (n ≡ length body)
  checked body remaining n e v w' h =
      elim (Bool-cases (ltb remaining (length (take (suc remaining) body)))) [
        | inl over ↦ absurd (ok≢err {A = ℕ} (rw over at h))
        | inr fits ↦
            let same = ok-injective (rw fits at h) in
            let read = length-take (suc remaining) body in ground (arith, same, read)
      ]

check_entries-le :
    (r : Result (List ZipFile)) (files : List ZipFile)
    → check_entries r ≡ ok files
    → length files ≤ max_entries
unfolding check_entries
check_entries-le (err x) files h = absurd (cc)
check_entries-le (ok found) files h = ground arith

module _ {W : Type 0} (m : Machine W) where
  -- An entry that is extracted is extracted whole.
  extract_zip_file-le :
      (file : ZipFile) (target : Str) (remaining n : ℕ) (w w' : W)
      → extract_zip_file m file target remaining w ≡ (ok n, w')
      → (n ≤ remaining) × (n ≡ length file.body)
  unfolding extract_zip_file
  extract_zip_file-le file target remaining n w w' e =
      let (_, _, e1) = continue_with-eq-ok _ _ _ e in
      let (_, _, e2) = continue_with-eq-ok _ _ _ e1 in
      let (_, _, e3) = continue_with-eq-ok _ _ _ e2 in
      let (_, _, e4) = continue_with-eq-ok _ _ _ e3 in checked file.body remaining n _ _ _ e4

  extract_regular :
      (file : ZipFile) (target : Str) (extracted n : ℕ) (e : Error) (v w' : W)
      → (if leb max_extracted_bytes extracted
            then lift (err e)
            else extract_zip_file m file target (max_extracted_bytes - extracted))
          v
        ≡ (ok n, w')
      → (extracted + n ≤ max_extracted_bytes) × (n ≡ length file.body)
  extract_regular file target extracted n e v w' h =
      elim (Bool-cases (leb max_extracted_bytes extracted)) [
        | inl full ↦ absurd (ok≢err {A = ℕ} (rw full at h))
        | inr room ↦
            let whole =
              extract_zip_file-le file target (max_extracted_bytes - extracted) n v w'
                (rw room at h) in
            (ground (arith, whole.0), whole.1)
      ]

  extract_entry-le :
      (file : ZipFile) (target clean : Str) (extracted n : ℕ) (w w' : W)
      → extracted ≤ max_extracted_bytes
      → extract_entry m file target clean extracted w ≡ (ok n, w')
      → (extracted + n ≤ max_extracted_bytes) × (n ≡ size_of file)
  unfolding extract_entry
  extract_entry-le file target clean extracted n w w' le e = elim (Bool-cases file.is_symlink) [
    | inl link ↦ absurd (ok≢err {A = ℕ} (rw link at e))
    | inr no_link ↦ elim (Bool-cases file.is_dir) [
      | inl dir ↦
          let (_, _, e1) = continue_with-eq-ok _ _ _ (rw (no_link, dir) at e) in
          let none_read : 0 ≡ n = ok-injective e1 in (omega arith, rw dir (sym none_read))
      | inr no_dir ↦ elim (Bool-cases file.is_regular) [
        | inl regular ↦
            let (_, _, e1) = continue_with-eq-ok _ _ _ (rw (no_link, no_dir, regular) at e) in
            let whole = extract_regular file target extracted n _ _ _ e1 in
            (whole.0, rw no_dir whole.1)
        | inr special ↦ absurd (ok≢err {A = ℕ} (rw (no_link, no_dir, special) at e))
      ]
    ]
  ]

  extract_next-le :
      (root : Str) (seen : List Str) (extracted : ℕ) (file : ZipFile) (done : Str × ℕ) (w w' : W)
      → extracted ≤ max_extracted_bytes
      → extract_next m root seen extracted file w ≡ (ok done, w')
      → (extracted + done.1 ≤ max_extracted_bytes) × (done.1 ≡ size_of file)
  unfolding extract_next
  extract_next-le root seen extracted file done w w' le e =
      let (found, _, e1) = continue_with-eq-ok _ _ _ e in
      elim (Bool-cases (contains seen found.1)) [
        | inl twice ↦ absurd (ok≢err (rw twice at e1))
        | inr new ↦
            let (n, step, e2) = continue_with-eq-ok _ _ _ (rw new at e1) in
            let counted = extract_entry-le file _ _ extracted n _ _ le (with_world _ step) in
            let same : n ≡ done.1 = ap (λ d. d.1) (ok-injective e2) in
            (omega (arith, counted.0), sym same ∙ counted.1)
      ]

  extract_entries-le :
      (root : Str) (seen : List Str) (extracted : ℕ) (files : List ZipFile) (n : ℕ) (w w' : W)
      → extracted ≤ max_extracted_bytes
      → extract_entries m root seen extracted files w ≡ (ok n, w')
      → (n ≤ max_extracted_bytes) × (n ≡ extracted + total_size files)
  unfolding extract_entries
  extract_entries-le root seen extracted [] n w w' le e =
      let same : extracted ≡ n = ok-injective e in (omega arith, omega arith)
  extract_entries-le root seen extracted (file ∷ files) n w w' le e =
      let (done, step, e1) = continue_with-eq-ok _ _ _ e in
      let counted = extract_next-le root seen extracted file done _ _ le (with_world _ step) in
      let rest =
        extract_entries-le root (done.0 ∷ seen) (extracted + done.1) files n _ _ counted.0 e1 in
      (rest.0, omega (arith, rest.1, counted.1))

  open_archive-le :
      (content : Str) (files : List ZipFile)
      → open_archive m content ≡ ok files
      → length files ≤ max_entries
  unfolding open_archive
  open_archive-le content files e = decoded (decode_archive m content) e
    where
      decoded : (r : Result Str) → open_decoded m r ≡ ok files → length files ≤ max_entries
      decoded (err x) h = absurd (cc)
      decoded (ok archive) h = check_entries-le (m.read_zip archive) files h

  -- When the extraction succeeds, the archive held at most 256 entries, and the sizes of its files,
  -- which together are at most 20 MiB, are what was extracted: no file was cut short.
  pub extract_additional_files-le :
      (dir : Str) (files : AdditionalFiles) (n : ℕ) (w w' : W)
      → extract_additional_files m dir files w ≡ (ok n, w')
      → (entries : List ZipFile) × (open_archive m files.content ≡ ok entries)
        × (length entries ≤ max_entries)
        × (n ≡ total_size entries)
        × (n ≤ max_extracted_bytes)
  unfolding extract_additional_files
  extract_additional_files-le dir files n w w' e =
      elim (Bool-cases (str_eq files.encoding (lit "zip_base64"))) [
        | inl zip ↦
            let (entries, opened, e1) = continue_with-eq-ok _ _ _ (rw zip at e) in
            let (root, _, e2) = continue_with-eq-ok _ _ _ e1 in
            let bounds = extract_entries-le root [] 0 entries n _ _ (omega arith) e2 in
            (
              entries,
              opened,
              open_archive-le files.content entries opened,
              bounds.1 ∙ omega arith,
              bounds.0,
            )
        | inr other ↦ absurd (ok≢err {A = ℕ} (rw other at e))
      ]
