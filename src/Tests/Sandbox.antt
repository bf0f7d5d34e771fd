-- ===== src/Tests/Sandbox.antt =====
-- The capped buffer on concrete writes.
use batasd.Common.{
  ℕ, ◌<◌, ◌*◌, ◌^◌, true, ◌&&◌, List, [], ◌∷◌, ◌≡◌, refl, arith, ltb, take, length, if◌then◌else◌,
}
use batasd.Common.Int.{pos, ◌<ℤ◌, ◌≤ℤ◌}
use batasd.Common.Str.{Str, lit}
use batasd.Sandbox.Output.{new_output_buffer, write_all, max_output_bytes, default_max_output_bytes}
use batasd.Sandbox.Output.Laws.{write_all-new_output_buffer, limit-max_output_bytes}
use mathlib.Core.List.{flatten}
use batasd.Tests.Fixtures.{limits}

abbrev writes : List Str
writes = lit "ab" ∷ lit "cd" ∷ lit "e" ∷ []

capped_test : (write_all (new_output_buffer (pos 3) true) writes).0.buf ≡ lit "abc"
unfolding write_all new_output_buffer take
capped_test = refl

write_all-new_output_buffer_example :
    ((write_all (new_output_buffer (pos 3) true) writes).0.buf ≡ take 3 (flatten writes))
    × ((write_all (new_output_buffer (pos 3) true) writes).0.exceeded
        ≡ ltb 3 (length (flatten writes)))
    × ((write_all (new_output_buffer (pos 3) true) writes).1
        ≡ (if true && ltb 3 (length (flatten writes)) then 1 else 0))
write_all-new_output_buffer_example = write_all-new_output_buffer 3 true writes (omega arith)

limit-max_output_bytes_example :
    (pos 0 <ℤ (new_output_buffer (max_output_bytes limits) true).limit)
    × ((n : ℕ)
        → limits.max_output_kb ≡ pos n
        → 0 < n
        → n * 1024 < 2 ^ 63
        → (new_output_buffer (max_output_bytes limits) true).limit ≡ pos (n * 1024))
    × (limits.max_output_kb ≤ℤ pos 0
        → (new_output_buffer (max_output_bytes limits) true).limit ≡ default_max_output_bytes)
limit-max_output_bytes_example = limit-max_output_bytes limits true
