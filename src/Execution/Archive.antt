-- ===== src/Execution/Archive.antt =====
-- extractAdditionalFiles, decodeAdditionalFilesArchive and extractZipFile of
-- internal/execution/engine.go. The directory of an entry's target is filepath.Dir of a path that
-- is already clean, so what stands before its last slash.
pub mod Bounds
pub mod Directories
pub mod Confinement
use batasd.Common.{
  ℕ, zero, suc, ◌+◌, ◌-◌, ◌*◌, ◌/◌, Bool, true, false, ◌||◌, ◌&&◌, not, List, [], ◌∷◌, ◌++◌,
  reverse, Option, none, some, length, take, min, if◌then◌else◌, ltb, leb, ◌==◌, any, ◌≡◌, refl,
}
use batasd.Common.Int.{pos}
use batasd.Common.Str.{Str, lit, str_eq, is_empty, trim_space, format_int}
use batasd.Common.Errors.{Error, other, wrap, Result, ok, err}
use batasd.Common.Effects.{Io, ◌>>=◌, ◌>>◌, lift, return}
use batasd.Submission.Model.{AdditionalFiles}
use batasd.Execution.Machine.{Machine, ZipFile}
use batasd.Execution.Paths.{safe_zip_target}
use batasd.Execution.Paths

abbrev pub max_archive_bytes : ℕ
max_archive_bytes = 10485760

abbrev pub max_extracted_bytes : ℕ
max_extracted_bytes = 20971520

abbrev pub max_entries : ℕ
max_entries = 256

-- base64.StdEncoding.EncodedLen.
abbrev encoded_len : ℕ → ℕ
encoded_len n = (n + 2) / 3 * 4

abbrev archive_too_large : Error
archive_too_large = other (
    lit "additional_files archive exceeds " ++ (format_int (pos max_archive_bytes) ++ lit " bytes"))

abbrev content_too_large : Error
content_too_large = other (
    lit "additional_files extracted content exceeds "
    ++ (format_int (pos max_extracted_bytes) ++ lit " bytes"))

-- filepath.Dir of a rooted, clean path that is not the root.
drop_part : Str → Str
drop_part [] = []
drop_part (c ∷ s) = let rest = drop_part s in if c == b'/' then s else rest

unfoldable pub dir_of : Str → Str
unfolding drop_part
dir_of path = let dir = reverse (drop_part (reverse path)) in if is_empty dir then lit "/" else dir

-- `seen[cleanName]`.
abbrev pub contains : List Str → Str → Bool
contains seen name = any (str_eq name) seen

abbrev or_ok : Option Error → Result (Unit {0})
or_ok none = ok tt
or_ok (some e) = err e

-- What a reader gives that is limited to n bytes: the bytes, and the error that it meets. It stops
-- at its limit before it would meet the error behind the last byte.
unfoldable pub limited_read : ℕ → Str → Option Error → Str × Result (Unit {0})
limited_read n body broken = (take n body, if leb n (length body) then ok tt else or_ok broken)

check_decoded : Result Str → Result Str
check_decoded (err e) = err (wrap (lit "decode additional_files content: ") e)
check_decoded (ok archive) =
    if ltb max_archive_bytes (length archive) then err archive_too_large else ok archive

unfoldable pub check_entries : Result (List ZipFile) → Result (List ZipFile)
check_entries (err e) = err (wrap (lit "read additional_files zip: ") e)
check_entries (ok files) =
    if ltb max_entries (length files)
    then err (
        other (
          lit "additional_files cannot contain more than "
          ++ (format_int (pos max_entries) ++ lit " entries")))
    else ok files

module _ {W : Type 0} (m : Machine W) where
  unfoldable pub decode_archive : Str → Result Str
  unfolding trim_space check_decoded
  decode_archive raw =
      let content = trim_space raw in
      if is_empty content
      then err (other (lit "additional_files content is required"))
      else if ltb (encoded_len max_archive_bytes) (length content)
      then err archive_too_large
      else check_decoded (m.decode_base64 content)

  -- io.Copy writes what it read before it reports the reader's error.
  unfoldable pub extract_zip_file : ZipFile → Str → ℕ → Io W ℕ
  unfolding limited_read
  extract_zip_file file target remaining = do
    lift (or_ok file.unreadable)
    m.create_new target 0o644
    m.write_new target (limited_read (suc remaining) file.body file.broken).0
    lift (limited_read (suc remaining) file.body file.broken).1
    if ltb remaining (length (limited_read (suc remaining) file.body file.broken).0)
        then lift (err content_too_large)
        else return (length (limited_read (suc remaining) file.body file.broken).0)

  -- What is done with an entry whose name is new: the bytes that it adds to those extracted.
  unfoldable pub extract_entry : ZipFile → Str → Str → ℕ → Io W ℕ
  unfolding extract_zip_file dir_of
  extract_entry file target clean extracted =
      if file.is_symlink
      then lift (err (Paths.not_allowed m clean (lit " cannot be a symlink")))
      else if file.is_dir
      then (do m.mkdir_all target 0o755; return 0)
      else if not file.is_regular
      then lift (err (Paths.not_allowed m clean (lit " must be a regular file")))
      else (do
        m.mkdir_all (dir_of target) 0o755
        if leb max_extracted_bytes extracted
            then lift (err content_too_large)
            else extract_zip_file file target (max_extracted_bytes - extracted))

  -- One round of the loop: the name that it has seen, and the bytes that it has extracted.
  unfoldable pub extract_next : Str → List Str → ℕ → ZipFile → Io W (Str × ℕ)
  unfolding safe_zip_target extract_entry
  extract_next root seen extracted file = safe_zip_target m root file.name >>= λ found.
      if contains seen found.1
      then lift (err (other (lit "additional_files contains duplicate path " ++ m.quote found.1)))
      else (extract_entry file found.0 found.1 extracted >>= λ n. return (found.1, n))

  -- The loop over the entries, which ends with the sum of the bytes.
  unfoldable pub extract_entries : Str → List Str → ℕ → List ZipFile → Io W ℕ
  unfolding extract_next
  extract_entries root seen extracted [] = return extracted
  extract_entries root seen extracted (file ∷ files) =
      extract_next root seen extracted file >>= λ done.
      extract_entries root (done.0 ∷ seen) (extracted + done.1) files

  unfoldable pub open_decoded : Result Str → Result (List ZipFile)
  open_decoded (err e) = err e
  open_decoded (ok archive) = check_entries (m.read_zip archive)

  -- zip.NewReader and the limit on the number of entries.
  unfoldable pub open_archive : Str → Result (List ZipFile)
  unfolding decode_archive open_decoded check_entries
  open_archive content = open_decoded (decode_archive content)

  unfoldable pub extract_additional_files : Str → AdditionalFiles → Io W ℕ
  unfolding open_archive extract_entries
  extract_additional_files dir files =
      if not (str_eq files.encoding (lit "zip_base64"))
      then lift
          (err (other (lit "unsupported additional_files encoding " ++ m.quote files.encoding)))
      else (lift (open_archive files.content) >>= λ entries.
          Paths.abs_path m dir >>= λ root. extract_entries root [] 0 entries)
