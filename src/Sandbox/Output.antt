-- ===== src/Sandbox/Output.antt =====
-- internal/sandbox/output.go: the output cap and the capped buffer. Each method holds the mutex
-- for all that it reads and writes, so a call is one step.
pub mod Laws
use batasd.Common.{
  ℕ, ◌+◌, Bool, true, false, ◌&&◌, not, List, [], ◌∷◌, ◌++◌, length, take, if◌then◌else◌, ltb,
}
use batasd.Common.Int.{ℤ, pos, pos_part, neg_part, sub_ℕ, leb_ℤ, ltb_ℤ, scale_int64}
use batasd.Common.Str.{Str}
use batasd.Submission.Model.{Limits}

abbrev pub default_max_output_bytes : ℤ
default_max_output_bytes = pos 1048576

unfoldable pub max_output_bytes : Limits → ℤ
unfolding scale_int64
max_output_bytes limits =
    if leb_ℤ limits.max_output_kb (pos 0)
    then default_max_output_bytes
    else scale_int64 1024 limits.max_output_kb

-- `has_on_limit` says whether the callback is set; calling it is part of what `write` returns.
pub record OutputBuffer : Type 0 where
  pub buf : Str
  pub limit : ℤ
  pub exceeded : Bool
  pub has_on_limit : Bool

unfoldable pub new_output_buffer : ℤ → Bool → OutputBuffer
new_output_buffer limit has_on_limit = record {
  buf = [];
  limit = if leb_ℤ limit (pos 0) then default_max_output_bytes else limit;
  exceeded = false;
  has_on_limit = has_on_limit;
}

-- The buffer after the critical section, and `overflow`.
pub record Stored : Type 0 where
  pub buffer : OutputBuffer
  pub overflow : Bool

-- `b.limit - int64(len(b.buf))`.
unfoldable pub available : OutputBuffer → ℤ
available b = sub_ℕ (pos_part b.limit) (length b.buf + neg_part b.limit)

unfoldable pub store : OutputBuffer → Str → Stored
store b p =
    if ltb_ℤ (pos 0) (available b)
    then (if leb_ℤ (pos (length p)) (available b)
        then record { buffer = record b { buf = b.buf ++ p }; overflow = false }
        else record {
          buffer = record b { buf = b.buf ++ take (pos_part (available b)) p; exceeded = true };
          overflow = not b.exceeded;
        })
    else (if ltb 0 (length p)
        then record { buffer = record b { exceeded = true }; overflow = not b.exceeded }
        else record { buffer = b; overflow = false })

-- The buffer, the count that the writer is told, and whether `onLimit` is called.
pub record Written : Type 0 where
  pub buffer : OutputBuffer
  pub count : ℕ
  pub called : Bool

unfoldable pub write : OutputBuffer → Str → Written
unfolding store available
write b p = record {
  buffer = (store b p).buffer;
  count = length p;
  called = (store b p).overflow && b.has_on_limit;
}

-- A sequence of writes, and how often `onLimit` was called.
unfoldable pub write_all : OutputBuffer → List Str → OutputBuffer × ℕ
unfolding write
write_all b [] = (b, 0)
write_all b (p ∷ ps) =
    let (b', calls) = write_all (write b p).buffer ps in
    (b', (if (write b p).called then 1 else 0) + calls)
