-- ===== src/Common/Str.antt =====
-- Go strings, as the sequences of bytes that they are, and what the code uses of package strings.
use Prim.Native.Char.{code}
use Prim.Native.String.{String}
use Prim.Native.Nat.{ℕ, zero, suc, ◌+◌, ◌/◌, ◌%◌}
use mathlib.Core.Path.{◌≡◌, refl}
use mathlib.Core.Logic.{◌↔◌}
use mathlib.Core.Bool.{Bool, true, false, ◌&&◌, ◌||◌}
use mathlib.Core.List.{List, [], ◌∷◌, reverse}
use native.Mathlib.Omega.{arith}
use package.batasd.Common.Logic.{ltb, leb, ◌==◌, if◌then◌else◌}
use package.batasd.Common.Int.{ℤ, pos, negsuc}

abbrev pub Str : Type 0
Str = List ℕ

-- A literal of the source. All of them are ASCII, so a character is its byte.
abbrev pub lit : String → Str
lit String.[] = []
lit (String.◌∷◌ c s) = code c ∷ lit s

-- `==` on strings.
unfoldable pub str_eq : Str → Str → Bool
str_eq [] [] = true
str_eq (a ∷ s) (b ∷ t) = a == b && str_eq s t
str_eq _ _ = false

pub str_eq_iff : (s t : Str) → (str_eq s t ≡ true) ↔ (s ≡ t)
unfolding str_eq
str_eq_iff [] [] = ((λ _. refl), λ _. refl)
str_eq_iff [] (b ∷ t) = ground arith
str_eq_iff (a ∷ s) [] = ground arith
str_eq_iff (a ∷ s) (b ∷ t) = ground (arith, str_eq_iff s t)

pub str_eq_self : (s : Str) → str_eq s s ≡ true
str_eq_self s = (str_eq_iff s s).1 refl

-- `s == ""`.
abbrev pub is_empty : Str → Bool
is_empty [] = true
is_empty (a ∷ s) = false

-- The UTF-8 encodings of the runes that unicode.IsSpace accepts, by their length.
unfoldable pub is_space1 : ℕ → Bool
is_space1 a = (leb 9 a && leb a 13) || a == 32

unfoldable pub is_space2 : ℕ → ℕ → Bool
is_space2 a b = a == 0xC2 && (b == 0x85 || b == 0xA0)

unfoldable pub is_space3 : ℕ → ℕ → ℕ → Bool
is_space3 a b c =
    (a == 0xE1 && b == 0x9A && c == 0x80)
    || (a == 0xE2
        && b == 0x80
        && ((leb 0x80 c && leb c 0x8A) || c == 0xA8 || c == 0xA9 || c == 0xAF))
    || (a == 0xE2 && b == 0x81 && c == 0x9F)
    || (a == 0xE3 && b == 0x80 && c == 0x80)

-- strings.TrimLeftFunc(s, unicode.IsSpace).
unfoldable pub trim_left : Str → Str
unfolding is_space1 is_space2 is_space3
trim_left [] = []
trim_left (a ∷ []) = if is_space1 a then [] else a ∷ []
trim_left (a ∷ b ∷ []) =
    let after1 = trim_left (b ∷ []) in
    if is_space1 a then after1 else if is_space2 a b then [] else a ∷ b ∷ []
trim_left (a ∷ b ∷ c ∷ s) =
    let after1 = trim_left (b ∷ c ∷ s) in
    let after2 = trim_left (c ∷ s) in
    let after3 = trim_left s in
    if is_space1 a
    then after1
    else if is_space2 a b
    then after2
    else if is_space3 a b c
    then after3
    else a ∷ b ∷ c ∷ s

-- The same from the end, on the reversed string.
unfoldable pub trim_left_reversed : Str → Str
unfolding is_space1 is_space2 is_space3
trim_left_reversed [] = []
trim_left_reversed (a ∷ []) = if is_space1 a then [] else a ∷ []
trim_left_reversed (b ∷ a ∷ []) =
    let after1 = trim_left_reversed (a ∷ []) in
    if is_space1 b then after1 else if is_space2 a b then [] else b ∷ a ∷ []
trim_left_reversed (c ∷ b ∷ a ∷ s) =
    let after1 = trim_left_reversed (b ∷ a ∷ s) in
    let after2 = trim_left_reversed (a ∷ s) in
    let after3 = trim_left_reversed s in
    if is_space1 c
    then after1
    else if is_space2 b c
    then after2
    else if is_space3 a b c
    then after3
    else c ∷ b ∷ a ∷ s

-- strings.TrimRightFunc(s, unicode.IsSpace).
unfoldable pub trim_right : Str → Str
unfolding trim_left_reversed
trim_right s = reverse (trim_left_reversed (reverse s))

-- strings.TrimSpace.
unfoldable pub trim_space : Str → Str
unfolding trim_left trim_right
trim_space s = trim_right (trim_left s)

-- strconv's decimal digits of n, by division; n + 1 rounds are more than n has digits.
unfoldable pub decimal_from : ℕ → ℕ → Str → Str
decimal_from zero n acc = acc
decimal_from (suc fuel) n acc =
    let digits = (b'0' + n % 10) ∷ acc in
    let rest = decimal_from fuel (n / 10) digits in if ltb n 10 then digits else rest

unfoldable pub format_ℕ : ℕ → Str
unfolding decimal_from
format_ℕ n = decimal_from (suc n) n []

-- `%d`.
unfoldable pub format_int : ℤ → Str
unfolding format_ℕ
format_int (pos n) = format_ℕ n
format_int (negsuc n) = b'-' ∷ format_ℕ (suc n)

trim_space_test : trim_space (lit "  a b \n") ≡ lit "a b"
unfolding trim_space
trim_space_test = refl

format_int_test : format_int (negsuc 2047) ≡ lit "-2048"
unfolding format_int
format_int_test = refl
