-- ===== src/Common/Utf8.antt =====
-- `for _, r := range s`: the runes of a string, as unicode/utf8 decodes them.
use Prim.Native.Nat.{ℕ, zero, suc, ◌+◌, ◌-◌, ◌*◌}
use mathlib.Core.Path.{◌≡◌, refl}
use mathlib.Core.Bool.{Bool, ◌&&◌}
use mathlib.Core.List.{List, [], ◌∷◌}
use package.batasd.Common.Logic.{ltb, leb, ◌==◌, if◌then◌else◌}
use package.batasd.Common.Str.{Str}

abbrev pub rune_error : ℕ
rune_error = 0xFFFD

abbrev between : ℕ → ℕ → ℕ → Bool
between lo hi b = leb lo b && leb b hi

-- A rune, and how many bytes beyond the first it takes.
abbrev Decoded : Type 0
Decoded = ℕ × ℕ

decode2 : ℕ → Str → Decoded
decode2 a (b ∷ _) =
    if between 0x80 0xBF b then ((a - 0xC0) * 64 + (b - 0x80), 1) else (rune_error, 0)
decode2 a [] = (rune_error, 0)

decode3 : ℕ → Str → Decoded
decode3 a (b ∷ c ∷ _) =
    if between (if a == 0xE0 then 0xA0 else 0x80) (if a == 0xED then 0x9F else 0xBF) b
      && between 0x80 0xBF c
    then ((a - 0xE0) * 4096 + (b - 0x80) * 64 + (c - 0x80), 2)
    else (rune_error, 0)
decode3 a _ = (rune_error, 0)

decode4 : ℕ → Str → Decoded
decode4 a (b ∷ c ∷ d ∷ _) =
    if between (if a == 0xF0 then 0x90 else 0x80) (if a == 0xF4 then 0x8F else 0xBF) b
      && (between 0x80 0xBF c && between 0x80 0xBF d)
    then ((a - 0xF0) * 262144 + (b - 0x80) * 4096 + (c - 0x80) * 64 + (d - 0x80), 3)
    else (rune_error, 0)
decode4 a _ = (rune_error, 0)

decode_rune : ℕ → Str → Decoded
unfolding decode2 decode3 decode4
decode_rune a s =
    if ltb a 0x80
    then (a, 0)
    else if between 0xC2 0xDF a
    then decode2 a s
    else if between 0xE0 0xEF a
    then decode3 a s
    else if between 0xF0 0xF4 a
    then decode4 a s
    else (rune_error, 0)

-- The first argument counts the bytes of the current rune that are still to be passed over.
runes_from : ℕ → Str → List ℕ
unfolding decode_rune
runes_from skip [] = []
runes_from zero (a ∷ s) = (decode_rune a s).0 ∷ runes_from (decode_rune a s).1 s
runes_from (suc skip) (a ∷ s) = runes_from skip s

unfoldable pub runes : Str → List ℕ
unfolding runes_from
runes s = runes_from 0 s

-- "é€" and a byte that starts nothing.
runes_test : runes (0xC3 ∷ 0xA9 ∷ 0xE2 ∷ 0x82 ∷ 0xAC ∷ 0x80 ∷ []) ≡ 0xE9 ∷ 0x20AC ∷ rune_error ∷ []
unfolding runes
runes_test = refl
