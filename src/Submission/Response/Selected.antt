-- ===== src/Submission/Response/Selected.antt =====
-- What SelectResponseFields of internal/submission/response.go makes of a selection.
use batasd.Common.{
  true, false, List, [], ◌∷◌, map, Option, none, some, if◌then◌else◌, ◌≡◌, refl, ◌∙◌, any, All,
  Bool-cases, inl, inr, arith,
}
use batasd.Common.Str.{Str, str_eq, str_eq_iff}
use batasd.Common.Errors.{ok}
use batasd.Submission.Response.{
  Response, Value, Selection, find_key, put, members, add_member, select_from,
  select_response_fields,
}
use batasd.Submission.Response.Json.{json_object, IsShownOrEmpty, members-IsShownOrEmpty}
use batasd.Api.Fields.{valid_response_field, is_seen, parse_submission_fields}
use batasd.Api.Fields.Laws.{parse_submission_fields-AreFields}

-- Two rounds of the test for a key that is looked for.
first_of_two :
    (key field k : Str) (value v : Value) (rest : Option Value)
    → str_eq field k ≡ false
    → (if str_eq key k then some v else if str_eq key field then some value else rest)
      ≡ (if str_eq key field then some value else if str_eq key k then some v else rest)
first_of_two key field k value v rest apart = elim (Bool-cases (str_eq key field)) [
  | inr other ↦ rw other refl
  | inl same ↦
      let e = (str_eq_iff key field).0 same in rw (e, apart) (let one = rw e at same in rw one refl)
]

find_key-put :
    (key field : Str) (value : Value) (out : Selection)
    → find_key key (put field value out)
      ≡ (if str_eq key field then some value else find_key key out)
unfolding find_key put
find_key-put key field value [] = refl
find_key-put key field value ((k, v) ∷ out) = elim (Bool-cases (str_eq field k)) [
  | inl same ↦ rw (same, put) (rw ((str_eq_iff field k).0 same) (ground arith))
  | inr apart ↦
      rw (apart, put, find_key-put key field value out)
        (first_of_two key field k value v (find_key key out) apart)
]

find_key-any :
    (field : Str) (m : Selection)
    → any (str_eq field) (map (λ entry. entry.0) m) ≡ true
    → (value : Value) × (find_key field m ≡ some value)
unfolding find_key
find_key-any field [] h = absurd (cc)
find_key-any field ((k, v) ∷ m) h = elim (Bool-cases (str_eq field k)) [
  | inl same ↦ (v, rw (same, find_key) refl)
  | inr apart ↦
      let (value, e) = find_key-any field m (rw apart at h) in (value, rw (apart, find_key) e)
]

-- The keys of the switch are the valid fields, so a valid field has a value.
find_key-members :
    (r : Response) (field : Str)
    → valid_response_field field ≡ true
    → (value : Value) × (find_key field (members r) ≡ some value)
unfolding members valid_response_field
find_key-members r field h = find_key-any field (members r) h

find_key-add_member :
    (r : Response) (key field : Str) (out : Selection)
    → valid_response_field field ≡ true
    → find_key key (add_member r field out)
      ≡ (if str_eq key field then find_key key (members r) else find_key key out)
unfolding add_member
find_key-add_member r key field out known =
    let (value, found) = find_key-members r field known in
    rw (found, add_member)
      (find_key-put key field value out ∙ elim (Bool-cases (str_eq key field)) [
        | inl same ↦ rw (same, (str_eq_iff key field).0 same, found) refl
        | inr other ↦ rw other refl
      ])

find_key-select_from :
    (r : Response) (key : Str) (fields : List Str) (out : Selection)
    → All (λ field. valid_response_field field ≡ true) fields
    → find_key key (select_from r fields out)
      ≡ (if is_seen key fields then find_key key (members r) else find_key key out)
unfolding select_from
find_key-select_from r key [] out known = refl
find_key-select_from r key (field ∷ fields) out (first, known) =
    find_key-select_from r key fields (add_member r field out) known
    ∙ elim (Bool-cases (str_eq key field)) [
      | inl same ↦ rw (find_key-add_member r key field out first, same) (ground arith)
      | inr other ↦ rw (find_key-add_member r key field out first, other) refl
    ]

seen_known :
    (key : Str) (fields : List Str)
    → All (λ field. valid_response_field field ≡ true) fields
    → is_seen key fields ≡ true
    → valid_response_field key ≡ true
seen_known key [] known seen = absurd (cc)
seen_known key (field ∷ fields) (first, known) seen = elim (Bool-cases (str_eq key field)) [
  | inl same ↦ rw ((str_eq_iff key field).0 same) first
  | inr other ↦ seen_known key fields known (rw other at seen)
]

-- When a request may select the fields `chosen`, the selected response has a value under each of
-- them, the one that the JSON object of the full response has there, or an empty one where that
-- object leaves the member out by `omitempty`; and it has nothing under any other key.
pub select_response_fields-chosen :
    (quote : Str → Str) (raw : Str) (chosen : List Str) (r : Response) (key : Str)
    → parse_submission_fields quote raw ≡ ok (some chosen)
    → (is_seen key chosen ≡ true
        → (value : Value) × (find_key key (select_response_fields r chosen) ≡ some value)
          × IsShownOrEmpty key (json_object r) value)
      × (is_seen key chosen ≡ false → find_key key (select_response_fields r chosen) ≡ none)
unfolding select_response_fields
select_response_fields-chosen quote raw chosen r key h =
    let known = (parse_submission_fields-AreFields quote raw chosen h).0.known in
    let selected = find_key-select_from r key chosen [] known in
    (
      λ seen.
          let (value, found) = find_key-members r key (seen_known key chosen known seen) in
          (value, rw seen at selected ∙ found, members-IsShownOrEmpty r key value found),
      λ unseen. rw unseen at selected,
    )
