-- ===== src/Common/Strconv.antt =====
-- What the code uses of packages strconv and strings to read texts: decimal integers, truth values,
-- the part before a separator, and letters without regard to their case.
use Prim.Native.Nat.{ℕ, zero, suc, ◌+◌, ◌-◌, ◌*◌, ◌^◌}
use mathlib.Core.Path.{◌≡◌, refl}
use mathlib.Core.Bool.{Bool, true, false, ◌&&◌, ◌||◌}
use mathlib.Core.Option.{Option, none, some}
use mathlib.Core.List.{List, [], ◌∷◌, map}
use package.batasd.Common.Logic.{ltb, leb, ◌==◌, if◌then◌else◌}
use package.batasd.Common.Int.{ℤ, pos, negsuc}
use package.batasd.Common.Str.{Str, lit, str_eq}

unfoldable pub is_digit : ℕ → Bool
is_digit c = leb b'0' c && leb c b'9'

-- The number that decimal digits denote behind those of n, and none at another byte.
unfoldable pub digits_from : ℕ → Str → Option ℕ
unfolding is_digit
digits_from n [] = some n
digits_from n (c ∷ s) =
    let rest = digits_from (n * 10 + (c - b'0')) s in if is_digit c then rest else none

-- Base 10 has no prefix and no underscores; an empty text is no number.
unfoldable pub parse_digits : Str → Option ℕ
unfolding digits_from
parse_digits [] = none
parse_digits (c ∷ s) = digits_from 0 (c ∷ s)

-- A value in the range of an int64, and an error beyond it.
abbrev pub in_range : Bool → Option ℕ → Option ℤ
in_range negative none = none
in_range false (some n) = if ltb n (2 ^ 63) then some (pos n) else none
in_range true (some zero) = some (pos 0)
in_range true (some (suc n)) = if ltb n (2 ^ 63) then some (negsuc n) else none

-- strconv.ParseInt(s, 10, 64), and strconv.Atoi where an int has 64 bits.
unfoldable pub parse_int : Str → Option ℤ
unfolding parse_digits
parse_int [] = none
parse_int (c ∷ s) =
    if c == b'-'
    then in_range true (parse_digits s)
    else if c == b'+'
    then in_range false (parse_digits s)
    else in_range false (parse_digits (c ∷ s))

-- strconv.ParseBool.
unfoldable pub parse_bool : Str → Option Bool
unfolding str_eq
parse_bool s =
    if str_eq s (lit "1")
      || (str_eq s (lit "t")
          || (str_eq s (lit "T")
              || (str_eq s (lit "true") || (str_eq s (lit "TRUE") || str_eq s (lit "True")))))
    then some true
    else if str_eq s (lit "0")
        || (str_eq s (lit "f")
            || (str_eq s (lit "F")
                || (str_eq s (lit "false") || (str_eq s (lit "FALSE") || str_eq s (lit "False")))))
    then some false
    else none

-- strings.Cut at a separator of one byte.
unfoldable pub cut : ℕ → Str → Option (Str × Str)
cut sep [] = none
cut sep (c ∷ s) =
    let rest = cut sep s in
    if c == sep then some ([], s) else elim rest [ none ↦ none | some p ↦ some (c ∷ p.0, p.1) ]

abbrev add_front : ℕ → List Str → List Str
add_front c [] = (c ∷ []) ∷ []
add_front c (part ∷ parts) = (c ∷ part) ∷ parts

-- strings.Split at commas.
unfoldable pub split_comma : Str → List Str
split_comma [] = [] ∷ []
split_comma (c ∷ s) =
    let parts = split_comma s in if c == b',' then [] ∷ parts else add_front c parts

-- strings.ContainsRune for an ASCII rune.
unfoldable pub contains_byte : ℕ → Str → Bool
contains_byte c [] = false
contains_byte c (d ∷ s) = d == c || contains_byte c s

-- An ASCII letter in lower case. The texts that the code compares with are ASCII, and no other
-- letter has an ASCII lower case but the Kelvin sign (U+212A, for `k`), which none of them holds.
unfoldable pub lower_byte : ℕ → ℕ
lower_byte c = if leb b'A' c && leb c b'Z' then c + 32 else c

unfoldable pub to_lower : Str → Str
unfolding lower_byte
to_lower s = map lower_byte s

parse_int_test : parse_int (lit "-9223372036854775808") ≡ some (negsuc 9223372036854775807)
unfolding parse_int
parse_int_test = refl

cut_test : cut b':' (lit "time:1:2") ≡ some (lit "time", lit "1:2")
unfolding cut
cut_test = refl

-- strings.EqualFold with a text of ASCII letters other than `k` and `s`, which alone have other
-- letters in their folds.
unfoldable pub equal_fold : Str → Str → Bool
unfolding to_lower str_eq
equal_fold s t = str_eq (to_lower s) (to_lower t)
