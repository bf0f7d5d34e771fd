-- ===== src/Migrations.antt =====
-- internal/migrations/runner.go: applying the embedded schema migrations, each at most once.
pub mod Once
use batasd.Common.{
  ℕ, Bool, true, false, not, ◌&&◌, ◌||◌, List, [], ◌∷◌, ◌++◌, if◌then◌else◌, ltb, ◌==◌,
}
use batasd.Common.Str.{Str, lit}
use batasd.Common.Errors.{Error, wrap, Result, ok, err}
use batasd.Common.Effects.{Io, ◌>>=◌, ◌>>◌, lift, return}

pub record Entry : Type 0 where
  pub name : Str
  pub is_dir : Bool

-- The embedded files and the database, in a world W. `begin_func` is pgx.BeginFunc, which runs a step
-- in a transaction; the other operations are the statements and scripts that the runner sends.
pub record Source (W : Type 0) : Type 0 where
  pub create_table : Io W (Unit {0})
  pub entries : Result (List Entry)
  pub is_applied : Str → Io W Bool
  pub read_file : Str → Result Str
  pub begin_func : Io W (Unit {0}) → Io W (Unit {0})
  pub execute : Str → Io W (Unit {0})
  pub insert_version : Str → Io W (Unit {0})

-- The order of strings, byte by byte.
unfoldable pub leb_str : Str → Str → Bool
leb_str [] t = true
leb_str (a ∷ s) [] = false
leb_str (a ∷ s) (b ∷ t) = ltb a b || (a == b && leb_str s t)

unfoldable pub insert_name : Str → List Str → List Str
unfolding leb_str
insert_name name [] = name ∷ []
insert_name name (other ∷ names) =
    let rest = insert_name name names in
    if leb_str name other then name ∷ other ∷ names else other ∷ rest

-- sort.Strings.
unfoldable pub sort_names : List Str → List Str
unfolding insert_name
sort_names [] = []
sort_names (name ∷ names) = insert_name name (sort_names names)

abbrev is_hidden : Str → Bool
is_hidden [] = false
is_hidden (c ∷ name) = c == b'.'

unfoldable pub script_names : List Entry → List Str
script_names [] = []
script_names (entry ∷ entries) =
    let rest = script_names entries in
    if not entry.is_dir && not (is_hidden entry.name) then entry.name ∷ rest else rest

-- `fmt.Errorf("…: %w", err)`.
abbrev pub wrapped : {A : Type 0} → Str → Result A → Result A
wrapped prefix (ok value) = ok value
wrapped prefix (err e) = err (wrap prefix e)

unfoldable pub wrapping : {W A : Type 0} → Str → Io W A → Io W A
wrapping prefix step w = (wrapped prefix (step w).0, (step w).1)

abbrev pub run_prefix : Str → Str
run_prefix name = lit "run migration " ++ (name ++ lit ": ")

module _ {W : Type 0} (s : Source W) where
  -- The body of the transaction.
  unfoldable pub apply : Str → Str → Io W (Unit {0})
  unfolding wrapping
  apply name sql =
      wrapping (lit "execute migration SQL: ") (s.execute sql)
      >> wrapping (lit "record migration: ") (s.insert_version name)

  unfoldable pub unless_applied : Str → Bool → Io W (Unit {0})
  unfolding apply
  unless_applied name true = return tt
  unless_applied name false =
      lift (wrapped (lit "read migration SQL: ") (s.read_file (lit "sql/" ++ name))) >>= λ sql.
      s.begin_func (apply name sql)

  unfoldable pub run_one : Str → Io W (Unit {0})
  unfolding wrapping unless_applied
  run_one name =
      wrapping (lit "check migration status: ") (s.is_applied name) >>= unless_applied name

  unfoldable pub run_all : List Str → Io W (Unit {0})
  unfolding run_one wrapping
  run_all [] = return tt
  run_all (name ∷ names) = wrapping (run_prefix name) (run_one name) >> run_all names

  unfoldable pub run : Io W (Unit {0})
  unfolding wrapping run_all sort_names script_names
  run =
      wrapping (lit "create schema_migrations table: ") s.create_table
      >> (lift (wrapped (lit "read embedded migrations: ") s.entries) >>= λ entries.
          run_all (sort_names (script_names entries)))
