-- ===== src/Migrations/Once.antt =====
-- Repeated runs of internal/migrations/runner.go on one database.
use batasd.Common.{
  arith, Option-cases, Bool, true, false, List, [], ◌∷◌, ◌++◌, Option, none, some, any, All, ◌≡◌,
  refl, sym, ◌∙◌, ap, Bool-cases, inl, inr,
}
use batasd.Common.Str.{lit, Str, str_eq, str_eq_self}
use batasd.Common.Errors.{Error, Result, ok, err}
use batasd.Common.Effects.{continue_with, continue_with-eq-ok, with_world}
use batasd.Migrations.{
  Entry, Source, wrapped, wrapping, apply, unless_applied, run_one, run_prefix, run_all, sort_names,
  script_names, run,
}

-- The versions in schema_migrations and the scripts that have taken effect, the latest first.
pub record Database : Type 0 where
  pub versions : List Str
  pub scripts : List Str

abbrev pub is_recorded : Str → List Str → Bool
is_recorded name versions = any (str_eq name) versions

abbrev run_script : Option Error → Str → Database → Result (Unit {0}) × Database
run_script none sql d = (ok tt, record d { scripts = sql ∷ d.scripts })
run_script (some e) sql d = (err e, d)

-- A transaction that fails leaves the database as it was.
abbrev rolled_back : Result (Unit {0}) × Database → Database → Result (Unit {0}) × Database
rolled_back (ok done, d') d = (ok tt, d')
rolled_back (err e, d') d = (err e, d)

-- A database on which scripts fail as `fails` says, and files that can be read or not.
abbrev pub postgres :
    (Str → Option Error) → Result (List Entry) → (Str → Result Str) → Source Database
postgres fails entries read_file = record {
  create_table = λ d. (ok tt, d);
  entries = entries;
  is_applied = λ name d. (ok (is_recorded name d.versions), d);
  read_file = read_file;
  begin_func = λ step d. rolled_back (step d) d;
  execute = λ sql. run_script (fails sql) sql;
  insert_version = λ name d. (ok tt, record d { versions = name ∷ d.versions });
}

module _ (fails : Str → Option Error) (entries : Result (List Entry))
    (read_file : Str → Result Str) where
  abbrev source : Source Database
  source = postgres fails entries read_file

  -- A name that is recorded is passed over.
  run_one-recorded :
      (name : Str) (d : Database)
      → is_recorded name d.versions ≡ true
      → run_one source name d ≡ (ok tt, d)
  unfolding run_one wrapping unless_applied continue_with
  run_one-recorded name d h = rw h refl

  run_all-recorded :
      (names : List Str) (d : Database)
      → All (λ name. is_recorded name d.versions ≡ true) names
      → run_all source names d ≡ (ok tt, d)
  unfolding run_all wrapping continue_with
  run_all-recorded [] d h = refl
  run_all-recorded (name ∷ names) d (h, hs) =
      ap (λ t. continue_with (λ _. run_all source names) (wrapped (run_prefix name) t.0) t.1)
        (run_one-recorded name d h)
      ∙ run_all-recorded names d hs

  -- A name that is not recorded is recorded by a run that succeeds.
  new_version :
      (name : Str) (d d' : Database)
      → unless_applied source name false d ≡ (ok tt, d')
      → d'.versions ≡ name ∷ d.versions
  unfolding unless_applied apply wrapping continue_with
  new_version name d d' h =
      let (sql, read, ran) =
        continue_with-eq-ok _ (wrapped _ (read_file (lit "sql/" ++ name))) d h in
      elim (Option-cases (fails sql)) [
        | inl fine ↦ sym (ap (λ t. t.1.versions) (rw fine at ran))
        | inr (e, failed) ↦ let wrong = ap (λ t. t.0) (rw failed at ran) in absurd (cc)
      ]

  run_one-records :
      (name : Str) (d d' : Database)
      → run_one source name d ≡ (ok tt, d')
      → (is_recorded name d'.versions ≡ true)
        × ((other : Str)
            → is_recorded other d.versions ≡ true
            → is_recorded other d'.versions ≡ true)
  unfolding run_one wrapping continue_with
  run_one-records name d d' h = elim (Bool-cases (is_recorded name d.versions)) [
    | inl before ↦
        let same : d ≡ d' = ap (λ t. t.1) (sym (run_one-recorded name d before) ∙ h) in
        (rw (← same) before, λ other was. rw (← same) was)
    | inr new ↦
        let e = new_version name d d' (rw new at h) in
        (rw (e, str_eq_self name) refl, λ other was. rw (e, was) (ground arith))
  ]

  All-grows :
      (names before after : List Str)
      → ((other : Str) → is_recorded other before ≡ true → is_recorded other after ≡ true)
      → All (λ name. is_recorded name before ≡ true) names
      → All (λ name. is_recorded name after ≡ true) names
  All-grows [] before after grows hs = tt
  All-grows (name ∷ names) before after grows (h, hs) =
      (grows name h, All-grows names before after grows hs)

  wrapped-eq-ok :
      {A : Type 0} (prefix : Str) (r : Result A) (a : A) → wrapped prefix r ≡ ok a → r ≡ ok a
  wrapped-eq-ok prefix (ok b) a h = h
  wrapped-eq-ok prefix (err e) a h = absurd (cc)

  run_all-records :
      (names : List Str) (d d' : Database)
      → run_all source names d ≡ (ok tt, d')
      → All (λ name. is_recorded name d'.versions ≡ true) names
        × ((other : Str)
            → is_recorded other d.versions ≡ true
            → is_recorded other d'.versions ≡ true)
  unfolding run_all wrapping
  run_all-records [] d d' h =
      let same : d ≡ d' = ap (λ t. t.1) h in (tt, λ other was. rw (← same) was)
  run_all-records (name ∷ names) d d' h =
      let (done, first, rest) =
        continue_with-eq-ok _ (wrapped (run_prefix name) (run_one source name d).0) _ h in
      let one = wrapped-eq-ok (run_prefix name) (run_one source name d).0 done first in
      let (here, grows) = run_one-records name d (run_one source name d).1 (with_world _ one) in
      let (there, keeps) = run_all-records names (run_one source name d).1 d' rest in
      ((keeps name here, there), λ other was. keeps other (grows other was))

-- When a run of the migrations succeeds, whichever scripts could have failed, another run succeeds
-- and leaves the database as it is: no script is applied a second time.
pub run-once :
    (fails : Str → Option Error) (entries : Result (List Entry)) (read_file : Str → Result Str)
    (d d' : Database)
    → run (postgres fails entries read_file) d ≡ (ok tt, d')
    → run (postgres fails entries read_file) d' ≡ (ok tt, d')
unfolding run wrapping continue_with
run-once fails (err e) read_file d d' h = let wrong = ap (λ t. t.0) h in absurd (cc)
run-once fails (ok entries) read_file d d' h =
    run_all-recorded fails (ok entries) read_file (sort_names (script_names entries)) d'
      (run_all-records fails (ok entries) read_file (sort_names (script_names entries)) d d' h).0
