-- ===== src/Tests/Archive.antt =====
-- Archives and their paths on concrete inputs.
use batasd.Common.{◌≤◌, List, [], ◌∷◌, ◌++◌, ◌≡◌, ◌⊎◌, refl, arith, All, length, take}
use batasd.Common.Str.{lit, str_eq}
use batasd.Common.Errors.{Error, ok, err}
use batasd.Common.Effects.{continue_with}
use batasd.Execution.Machine.{ZipFile}
use batasd.Execution.Paths.{safe_zip_target, path_clean, join_slash}
use batasd.Execution.Paths.Confined.{IsRoot, IsRefused, GoesDown, safe_zip_target_cases}
use batasd.Execution.Archive.{
  open_archive, extract_additional_files, extract_entries, max_entries, max_extracted_bytes,
}
use batasd.Execution.Archive.Bounds.{total_size, extract_additional_files-le}
use batasd.Execution.Archive.Directories.{IsInside}
use batasd.Execution.Archive.Confinement.{Keeps, extract_entries-keeps}
use batasd.Tests.Fixtures.{machine, text_file, zip_files}

work_dir_lem : IsRoot (lit "/w")
unfolding join_slash
work_dir_lem = record {
  part = lit "w";
  parts = [];
  printed = refl;
  down = (
    record {
      nonempty = λ e. cc;
      not_here = λ e. cc;
      not_up = λ e. cc;
      no_slash = ((λ e. absurd (omega (arith, e))), tt);
    },
    tt,
  );
}

clean_test : path_clean (lit "a/./b//../c") ≡ lit "a/c"
unfolding path_clean str_eq
clean_test = refl

dotdot_test :
    safe_zip_target machine (lit "/w") (lit "d/../../e") []
    ≡ (err (Error.other (lit "additional_files path d/../../e is not allowed")), [])
unfolding safe_zip_target str_eq
dotdot_test = refl

safe_zip_target_cases_example :
    (IsRefused (lit "d/a.txt")
      × (e : Error) × (safe_zip_target machine (lit "/w") (lit "d/a.txt") [] ≡ (err e, [])))
    ⊎ (GoesDown (path_clean (lit "d/a.txt"))
        × (safe_zip_target machine (lit "/w") (lit "d/a.txt") [] ≡ (
          ok (lit "/w" ++ (b'/' ∷ path_clean (lit "d/a.txt")), path_clean (lit "d/a.txt")),
          [],
        )))
safe_zip_target_cases_example =
    safe_zip_target_cases machine (lit "/w") (lit "d/a.txt") [] work_dir_lem

logged_lem : Keeps machine (lit "/w") (All (IsInside (lit "/w")))
logged_lem = record {
  mkdir = λ path mode w inside all. (inside, all);
  create = λ path mode w inside all. (inside, all);
  fill = λ path body w inside short all. (inside, all);
}

abbrev entries : List ZipFile
entries = text_file (lit "a.txt") ∷ text_file (lit "../b.txt") ∷ []

extract_entries-keeps_example :
    All (IsInside (lit "/w")) (extract_entries machine (lit "/w") [] 0 entries []).1
extract_entries-keeps_example =
    extract_entries-keeps machine (lit "/w") (All (IsInside (lit "/w"))) logged_lem [] 0 entries []
      work_dir_lem tt

extracted : extract_additional_files machine (lit "/w") zip_files [] ≡ (
  ok 6,
  lit "/w/d/b.txt"
      ∷ lit "/w/d/b.txt"
      ∷ lit "/w/d"
      ∷ lit "/w/a.txt"
      ∷ lit "/w/a.txt"
      ∷ lit "/w"
      ∷ [],
)
unfolding extract_additional_files str_eq continue_with take
extracted = refl

extract_additional_files-le_example :
    (files : List ZipFile) × (open_archive machine (lit "UEsDBA==") ≡ ok files)
    × (length files ≤ max_entries)
    × (6 ≡ total_size files)
    × (6 ≤ max_extracted_bytes)
extract_additional_files-le_example =
    extract_additional_files-le machine (lit "/w") zip_files 6 [] _ extracted
