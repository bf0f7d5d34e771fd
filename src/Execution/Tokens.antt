-- ===== src/Execution/Tokens.antt =====
-- validateTokens and appendArgs of internal/execution/engine.go.
use batasd.Common.{
  false, ℕ, suc, ◌≤◌, ◌≡◌, ◌≢◌, ◌↔◌, ◌⊎◌, refl, arith, Bool, ◌||◌, ◌&&◌, List, [], ◌∷◌, ◌++◌,
  length, All, if◌then◌else◌, ltb, leb, ◌==◌,
}
use batasd.Common.Int.{pos}
use batasd.Common.Str.{Str, lit, format_int, is_empty}
use batasd.Common.Utf8.{runes, rune_error}
use batasd.Common.Errors.{other, Result, ok, err, ◌>>◌, fail_if, fail_if-eq-ok, >>-eq-ok}

-- unicode.IsControl.
unfoldable pub is_control : ℕ → Bool
is_control r = ltb r 0x20 || (leb 0x7F r && ltb r 0xA0)

abbrev at_index : Str → ℕ → Str
at_index field i = field ++ (lit "[" ++ (format_int (pos i) ++ lit "]"))

-- The loop over the runes of one value.
unfoldable pub validate_runes : Str → ℕ → List ℕ → Result (Unit {0})
unfolding is_control
validate_runes field i [] = ok tt
validate_runes field i (r ∷ rs) =
    let rest = validate_runes field i rs in
    if r == rune_error
    then err (other (at_index field i ++ lit " must be valid UTF-8"))
    else if is_control r
    then err (other (at_index field i ++ lit " cannot contain control characters"))
    else rest

unfoldable pub validate_token : Str → ℕ → Str → Result (Unit {0})
unfolding validate_runes runes
validate_token field i value = do
  fail_if (is_empty value) (other (at_index field i ++ lit " cannot be empty"))
  fail_if (ltb 256 (length value))
      (other (at_index field i ++ lit " cannot be longer than 256 bytes"))
  validate_runes field i (runes value)

-- The loop over the values, from index i on.
unfoldable pub validate_token_list : Str → ℕ → List Str → Result (Unit {0})
unfolding validate_token
validate_token_list field i [] = ok tt
validate_token_list field i (value ∷ values) =
    validate_token field i value >> validate_token_list field (suc i) values

unfoldable pub validate_tokens : Str → List Str → Result (Unit {0})
unfolding validate_token_list
validate_tokens field values = do
  fail_if (ltb 64 (length values)) (other (field ++ lit " cannot contain more than 64 values"))
  validate_token_list field 0 values

unfoldable pub append_args : List Str → List Str → List Str
append_args base extra = base ++ extra

-- A rune that a token may hold.
abbrev pub IsPrintable : ℕ → Type 0
IsPrintable r = (r ≢ rune_error) × (0x20 ≤ r) × ((r ≤ 0x7E) ⊎ (0xA0 ≤ r))

pub record IsToken (value : Str) : Type 0 where
  pub nonempty : value ≢ []
  pub short : length value ≤ 256
  pub printable : All IsPrintable (runes value)

validate_runes_iff :
    (field : Str) (i : ℕ) (rs : List ℕ) → (validate_runes field i rs ≡ ok tt) ↔ All IsPrintable rs
unfolding validate_runes
validate_runes_iff field i [] = ((λ _. tt), λ _. refl)
validate_runes_iff field i (r ∷ rs) = ground (arith, validate_runes_iff field i rs)

validate_token_iff :
    (field : Str) (i : ℕ) (value : Str) → (validate_token field i value ≡ ok tt) ↔ IsToken value
unfolding validate_token fail_if
validate_token_iff field i [] = ((λ e. cc), λ t. absurd (t.nonempty refl))
validate_token_iff field i (a ∷ s) =
    let printable = validate_runes_iff field i (runes (a ∷ s)) in
    (
      λ e.
          let (fits, ok_runes) = >>-eq-ok (fail_if (ltb 256 (length (a ∷ s))) _) _ e in
          let within : ltb 256 (length (a ∷ s)) ≡ false = fail_if-eq-ok _ _ fits in
          record {
            nonempty = λ p. cc;
            short = ground (arith, within);
            printable = printable.0 ok_runes;
          },
      λ t. ground (arith, printable.1 t.printable, t.short),
    )

validate_token_list_iff :
    (field : Str) (i : ℕ) (values : List Str)
    → (validate_token_list field i values ≡ ok tt) ↔ All IsToken values
unfolding validate_token_list
validate_token_list_iff field i [] = ((λ _. tt), λ _. refl)
validate_token_list_iff field i (value ∷ values) = (
  λ e.
      let (first, rest) = >>-eq-ok _ _ e in
      (
        (validate_token_iff field i value).0 first,
        (validate_token_list_iff field (suc i) values).0 rest,
      ),
  λ t.
      rw (validate_token_list, (validate_token_iff field i value).1 t.0)
        ((validate_token_list_iff field (suc i) values).1 t.1),
)

-- The check passes exactly for at most 64 values that are each non-empty, of at most 256 bytes, and
-- made of runes that are neither control characters nor the replacement character that also
-- stands for invalid UTF-8.
pub validate_tokens_iff :
    (field : Str) (values : List Str)
    → (validate_tokens field values ≡ ok tt) ↔ ((length values ≤ 64) × All IsToken values)
unfolding validate_tokens fail_if
validate_tokens_iff field values =
    let each = validate_token_list_iff field 0 values in
    (
      λ e.
          let (few, rest) = >>-eq-ok (fail_if (ltb 64 (length values)) _) _ e in
          let within : ltb 64 (length values) ≡ false = fail_if-eq-ok _ _ few in
          (ground (arith, within), each.0 rest),
      λ t. ground (arith, each.1 t.1),
    )
