-- ===== src/Tests/Startup.antt =====
-- A restart with one submission in the table, and two runs of the migrations.
use batasd.Common.Str.{str_eq}
use batasd.Common.{map, false, List, [], ◌∷◌, ◌++◌, none, ◌≡◌, refl, All}
use batasd.Common.Str.{lit}
use batasd.Common.Errors.{ok}
use batasd.Common.Effects.{continue_with}
use batasd.Store.{unfinished_rows, recover_unfinished}
use batasd.Submission.Model.{Submission}
use batasd.Store.Recovery.{IsRecovered}
use batasd.Store.Recovery.Order.{IsOldestFirst}
use mathlib.Core.List.{Permᴰ}
use batasd.Startup.{recover_unfinished_submissions}
use batasd.Startup.Recovered.{Stored, stored, recovery-loses_nothing}
use batasd.Migrations.{Entry, run}
use batasd.Migrations.Once.{Database, postgres, run-once}
use batasd.Tests.Fixtures.{submission}

abbrev before : Stored
before = record { rows = submission ∷ []; sent = lit "sub_z" ∷ [] }

abbrev after : Stored
unfolding recover_unfinished
after = record {
  rows = (recover_unfinished 9 (submission ∷ [])).1;
  sent = lit "sub_z" ∷ lit "sub_a" ∷ [];
}

recovers : recover_unfinished_submissions (stored (λ token. none) 9) before ≡ (ok tt, after)
unfolding recover_unfinished_submissions continue_with recover_unfinished
recovers = refl

recovery-loses_nothing_example :
    (recovered : List Submission) × Permᴰ (unfinished_rows before.rows) recovered
    × IsOldestFirst recovered
    × (after.sent ≡ before.sent ++ map (λ row. row.token) recovered)
    × All (IsRecovered (map (λ row. row.token) recovered)) after.rows
recovery-loses_nothing_example = recovery-loses_nothing (λ token. none) 9 before after recovers

abbrev files : List Entry
files =
    record { name = lit "0002_b.sql"; is_dir = false }
    ∷ record { name = lit "0001_a.sql"; is_dir = false }
    ∷ []

abbrev empty : Database
empty = record { versions = []; scripts = [] }

abbrev migrated : Database
migrated = record {
  versions = lit "0002_b.sql" ∷ lit "0001_a.sql" ∷ [];
  scripts = lit "sql/0002_b.sql" ∷ lit "sql/0001_a.sql" ∷ [];
}

migrates : run (postgres (λ sql. none) (ok files) (λ path. ok path)) empty ≡ (ok tt, migrated)
unfolding run continue_with str_eq
migrates = refl

run-once_example :
    run (postgres (λ sql. none) (ok files) (λ path. ok path)) migrated ≡ (ok tt, migrated)
run-once_example = run-once (λ sql. none) (ok files) (λ path. ok path) empty migrated migrates
