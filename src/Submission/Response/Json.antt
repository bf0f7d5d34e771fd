-- ===== src/Submission/Response/Json.antt =====
-- The object that a Response of internal/submission/response.go is encoded to.
use batasd.Common.{
  Bool, true, false, not, ◌&&◌, List, [], ◌∷◌, none, some, if◌then◌else◌, ◌≡◌, ◌⊎◌, inl, inr, refl,
  sym, any, map, Bool-cases,
}
use batasd.Common.Str.{Str, lit, str_eq, str_eq_iff}
use batasd.Submission.Response.{
  Response, Value, text, status, maybe_text, maybe_number, flag, limits, texts, Selection, find_key,
  members,
}

-- A field of a struct: the name in its tag, its value, and whether the tag has `omitempty`.
pub record Field : Type 0 where
  pub name : Str
  pub value : Value
  pub omits : Bool

abbrev pub field_of : Str → Value → Field
field_of name value = record { name = name; value = value; omits = false }

abbrev pub omitting : Str → Value → Field
omitting name value = record { name = name; value = value; omits = true }

-- The fields of Response with their tags.
unfoldable pub tagged : Response → List Field
tagged r =
    field_of (lit "token") (text r.token)
    ∷ omitting (lit "language") (text r.language)
    ∷ omitting (lit "language_version") (text r.language_version)
    ∷ field_of (lit "status") (status r.status)
    ∷ field_of (lit "stdout") (maybe_text r.stdout)
    ∷ field_of (lit "stderr") (maybe_text r.stderr)
    ∷ field_of (lit "stdout_truncated") (flag r.stdout_truncated)
    ∷ field_of (lit "stderr_truncated") (flag r.stderr_truncated)
    ∷ field_of (lit "compile_output") (maybe_text r.compile_output)
    ∷ field_of (lit "compile_output_truncated") (flag r.compile_output_truncated)
    ∷ field_of (lit "message") (maybe_text r.message)
    ∷ field_of (lit "exit_code") (maybe_number r.exit_code)
    ∷ field_of (lit "exit_signal") (maybe_text r.exit_signal)
    ∷ field_of (lit "time_ms") (maybe_number r.time_ms)
    ∷ field_of (lit "wall_time_ms") (maybe_number r.wall_time_ms)
    ∷ field_of (lit "memory_kb") (maybe_number r.memory_kb)
    ∷ omitting (lit "created_at") (text r.created_at)
    ∷ field_of (lit "queued_at") (maybe_text r.queued_at)
    ∷ field_of (lit "started_at") (maybe_text r.started_at)
    ∷ field_of (lit "finished_at") (maybe_text r.finished_at)
    ∷ omitting (lit "limits") (limits r.limits)
    ∷ omitting (lit "arguments") (texts r.arguments)
    ∷ omitting (lit "compiler_options") (texts r.compiler_options)
    ∷ []

-- What `omitempty` leaves out; a struct is never empty.
unfoldable pub is_empty_value : Value → Bool
is_empty_value (text []) = true
is_empty_value (text (c ∷ s)) = false
is_empty_value (status s) = false
is_empty_value (maybe_text none) = true
is_empty_value (maybe_text (some s)) = false
is_empty_value (maybe_number none) = true
is_empty_value (maybe_number (some n)) = false
is_empty_value (flag b) = not b
is_empty_value (limits l) = false
is_empty_value (texts []) = true
is_empty_value (texts (s ∷ ss)) = false

-- The members that json.Marshal writes for a struct.
unfoldable pub marshal : List Field → Selection
unfolding is_empty_value
marshal [] = []
marshal (f ∷ fields) =
    let rest = marshal fields in
    if f.omits && is_empty_value f.value then rest else (f.name, f.value) ∷ rest

unfoldable pub json_object : Response → Selection
unfolding marshal tagged
json_object r = marshal (tagged r)

-- The value under a key, unless it is empty and left out.
abbrev pub IsShownOrEmpty : Str → Selection → Value → Type 0
IsShownOrEmpty key object value =
    (find_key key object ≡ some value)
    ⊎ ((find_key key object ≡ none) × (is_empty_value value ≡ true))

abbrev has_name : Str → List Field → Bool
has_name key fields = any (str_eq key) (map (λ f. f.name) fields)

abbrev are_distinct : List Field → Bool
are_distinct [] = true
are_distinct (f ∷ fields) = not (has_name f.name fields) && are_distinct fields

first_apart : (named rest : Bool) → (not named && rest) ≡ true → (named ≡ false) × (rest ≡ true)
first_apart true rest h = cc
first_apart false rest h = (refl, h)

abbrev entries : List Field → Selection
entries fields = map (λ f. (f.name, f.value)) fields

marshal-none :
    (key : Str) (fields : List Field)
    → has_name key fields ≡ false
    → find_key key (marshal fields) ≡ none
unfolding marshal find_key
marshal-none key [] h = refl
marshal-none key (f ∷ fields) h = elim (Bool-cases (str_eq key f.name)) [
  | inl same ↦ let hit : true ≡ false = rw same at h in absurd (cc)
  | inr other ↦
      let rest = marshal-none key fields (rw other at h) in
      elim (Bool-cases (f.omits && is_empty_value f.value)) [
        | inl out ↦ rw (out, marshal) rest
        | inr shown ↦ rw (shown, marshal, other, find_key) rest
      ]
]

marshal-shows :
    (key : Str) (value : Value) (fields : List Field)
    → are_distinct fields ≡ true
    → find_key key (entries fields) ≡ some value
    → IsShownOrEmpty key (marshal fields) value
unfolding marshal find_key
marshal-shows key value [] distinct h = cc
marshal-shows key value (f ∷ fields) all h =
    let (apart, distinct) = first_apart (has_name f.name fields) (are_distinct fields) all in
    elim (Bool-cases (str_eq key f.name)) [
      | inr other ↦
          let rest = marshal-shows key value fields distinct (rw other at h) in
          elim (Bool-cases (f.omits && is_empty_value f.value)) [
            | inl out ↦ rw (out, marshal) rest
            | inr shown ↦ rw (shown, marshal, other, find_key) rest
          ]
      | inl same ↦
          let e : some f.value ≡ some value = rw same at h in
          elim (Bool-cases (f.omits && is_empty_value f.value)) [
            | inr shown ↦ inl (rw (shown, marshal, same, find_key) e)
            | inl out ↦ inr (
              rw (out, marshal)
                  (marshal-none key fields (rw ((str_eq_iff key f.name).0 same) apart)),
              is_omitted f.omits f.value value e out,
            )
          ]
    ]
  where
    is_omitted :
        (omits : Bool) (v value : Value)
        → some v ≡ some value
        → (omits && is_empty_value v) ≡ true
        → is_empty_value value ≡ true
    is_omitted true v value e h = let same : v ≡ value = cc in rw (sym same) h
    is_omitted false v value e h = cc

-- The value that a selection takes under a key is the one in the object, or is empty and left out
-- there.
pub members-IsShownOrEmpty :
    (r : Response) (key : Str) (value : Value)
    → find_key key (members r) ≡ some value
    → IsShownOrEmpty key (json_object r) value
unfolding members json_object tagged str_eq
members-IsShownOrEmpty r key value h = marshal-shows key value (tagged r) refl h
