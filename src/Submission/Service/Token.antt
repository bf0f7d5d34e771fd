-- ===== src/Submission/Service/Token.antt =====
-- newToken of internal/submission/service.go: base32 without padding, in lower case.
use batasd.Common.{ℕ, ◌+◌, ◌*◌, ◌/◌, ◌%◌, List, [], ◌∷◌, ◌++◌, if◌then◌else◌, ltb, map}
use batasd.Common.Str.{Str, lit}

-- The letter of five bits in the alphabet a-z2-7.
unfoldable pub digit : ℕ → ℕ
digit n = if ltb n 26 then 0x61 + n else 0x18 + n

-- Five bytes are eight digits, and fewer bytes at the end are as many digits as they touch.
unfoldable pub encode_base32 : List ℕ → List ℕ
encode_base32 [] = []
encode_base32 (a ∷ []) = a / 8 ∷ a % 8 * 4 ∷ []
encode_base32 (a ∷ b ∷ []) = a / 8 ∷ (a % 8 * 4 + b / 64) ∷ b / 2 % 32 ∷ b % 2 * 16 ∷ []
encode_base32 (a ∷ b ∷ c ∷ []) =
    a / 8 ∷ (a % 8 * 4 + b / 64) ∷ b / 2 % 32 ∷ (b % 2 * 16 + c / 16) ∷ c % 16 * 2 ∷ []
encode_base32 (a ∷ b ∷ c ∷ d ∷ []) =
    a / 8
    ∷ (a % 8 * 4 + b / 64)
    ∷ b / 2 % 32
    ∷ (b % 2 * 16 + c / 16)
    ∷ (c % 16 * 2 + d / 128)
    ∷ d / 4 % 32
    ∷ d % 4 * 8
    ∷ []
encode_base32 (a ∷ b ∷ c ∷ d ∷ e ∷ rest) =
    a / 8
    ∷ (a % 8 * 4 + b / 64)
    ∷ b / 2 % 32
    ∷ (b % 2 * 16 + c / 16)
    ∷ (c % 16 * 2 + d / 128)
    ∷ d / 4 % 32
    ∷ (d % 4 * 8 + e / 32)
    ∷ e % 32
    ∷ encode_base32 rest

unfoldable pub token_of : List ℕ → Str
unfolding digit encode_base32
token_of bytes = lit "sub_" ++ map digit (encode_base32 bytes)
