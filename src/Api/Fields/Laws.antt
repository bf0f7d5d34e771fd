-- ===== src/Api/Fields/Laws.antt =====
-- The fields that a request of internal/httpapi/submissions.go may select.
use batasd.Common.{
  true, false, ◌||◌, List, [], ◌∷◌, ◌++◌, some, All, All-append, ◌≡◌, ◌≢◌, refl, subst, Bool-cases,
  inl, inr, arith,
}
use batasd.Common.Str.{Str, lit, str_eq, str_eq_iff, is_empty, trim_space}
use batasd.Common.Strconv.{split_comma}
use batasd.Common.Errors.{ok, ok_value, >>=-eq-ok}
use batasd.Api.Fields.{
  valid_response_field, is_seen, add_field, add_fields, or_all, parse_submission_fields,
}

-- No field stands twice.
abbrev pub IsDistinct : List Str → Type 0
IsDistinct [] = Unit
IsDistinct (field ∷ fields) = (is_seen field fields ≡ false) × IsDistinct fields

pub record AreFields (fields : List Str) : Type 0 where
  pub known : All (λ field. valid_response_field field ≡ true) fields
  pub distinct : IsDistinct fields

str_eq_comm : (s t : Str) → str_eq s t ≡ false → str_eq t s ≡ false
str_eq_comm s t h = ground (arith, str_eq_iff s t, str_eq_iff t s)

is_seen-append :
    (x field : Str) (fields : List Str)
    → is_seen x fields ≡ false
    → str_eq x field ≡ false
    → is_seen x (fields ++ (field ∷ [])) ≡ false
is_seen-append x field [] seen apart = rw apart refl
is_seen-append x field (y ∷ fields) seen apart = elim (Bool-cases (str_eq x y)) [
  | inl same ↦ absurd (let e = rw same at seen in cc)
  | inr other ↦ rw other (is_seen-append x field fields (rw other at seen) apart)
]

IsDistinct-append :
    (field : Str) (fields : List Str)
    → is_seen field fields ≡ false
    → IsDistinct fields
    → IsDistinct (fields ++ (field ∷ []))
IsDistinct-append field [] seen d = (refl, tt)
IsDistinct-append field (y ∷ fields) seen (first, d) = elim (Bool-cases (str_eq field y)) [
  | inl same ↦ absurd (let e = rw same at seen in cc)
  | inr other ↦ (
    is_seen-append y field fields first (str_eq_comm field y other),
    IsDistinct-append field fields (rw other at seen) d,
  )
]

add_field-AreFields :
    (quote : Str → Str) (fields : List Str) (field : Str) {more : List Str}
    → add_field quote fields field ≡ ok more
    → AreFields fields
    → AreFields more
unfolding add_field
add_field-AreFields quote fields field {more} h a = elim (Bool-cases (is_empty field)) [
  | inl empty ↦ subst AreFields (ok_value (rw (empty, add_field) at h)) a
  | inr full ↦ elim (Bool-cases (str_eq field (lit "*"))) [
    | inl star ↦ absurd (let e = rw (full, star, add_field) at h in cc)
    | inr plain ↦ elim (Bool-cases (valid_response_field field)) [
      | inr unknown ↦ absurd (let e = rw (full, plain, unknown, add_field) at h in cc)
      | inl known ↦ elim (Bool-cases (is_seen field fields)) [
        | inl seen ↦ subst AreFields (ok_value (rw (full, plain, known, seen, add_field) at h)) a
        | inr fresh ↦
            subst AreFields (ok_value (rw (full, plain, known, fresh, add_field) at h)) (record {
              known = All-append _ fields (field ∷ []) a.known (known, tt);
              distinct = IsDistinct-append field fields fresh a.distinct;
            })
      ]
    ]
  ]
]

add_fields-AreFields :
    (quote : Str → Str) (fields parts : List Str) {more : List Str}
    → add_fields quote fields parts ≡ ok more
    → AreFields fields
    → AreFields more
unfolding add_fields
add_fields-AreFields quote fields [] h a = subst AreFields (ok_value h) a
add_fields-AreFields quote fields (part ∷ parts) h a =
    let (more, first, rest) = >>=-eq-ok _ _ h in
    add_fields-AreFields quote more parts rest
      (add_field-AreFields quote fields (trim_space part) first a)

or_all-some :
    (fields chosen : List Str) → or_all fields ≡ some chosen → (fields ≡ chosen) × (chosen ≢ [])
unfolding or_all
or_all-some [] chosen h = absurd (cc)
or_all-some (field ∷ fields) chosen h = (cc, λ e. absurd (cc))

-- A selection of fields that is accepted is not empty, names only fields of the response, and names
-- none of them twice.
pub parse_submission_fields-AreFields :
    (quote : Str → Str) (raw : Str) (chosen : List Str)
    → parse_submission_fields quote raw ≡ ok (some chosen)
    → AreFields chosen × (chosen ≢ [])
unfolding parse_submission_fields
parse_submission_fields-AreFields quote raw chosen h =
    elim (Bool-cases (is_empty (trim_space raw) || str_eq (trim_space raw) (lit "*"))) [
      | inl whole ↦ absurd (let e = rw (whole, parse_submission_fields) at h in cc)
      | inr listed ↦
          let (fields, added, same) =
            >>=-eq-ok (add_fields quote [] (split_comma (trim_space raw))) _
              (rw (listed, parse_submission_fields) at h) in
          let (e, full) = or_all-some fields chosen (ok_value same) in
          (
            subst AreFields e
                (add_fields-AreFields quote [] _ added (record { known = tt; distinct = tt })),
            full,
          )
    ]
