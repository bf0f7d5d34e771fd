-- ===== src/Sandbox/Isolate/Pool.antt =====
-- The pool of boxes: the buffered channel of NewRunner, from which acquireBox takes a box and into
-- which releaseBox puts it back, under every interleaving of concurrent runs.
pub mod Shared
pub mod Ready
use mathlib.Core.List.{map-append}
use batasd.Common.{
  ℕ, zero, suc, ◌+◌, ◌≤◌, ◌<◌, Bool, List, [], ◌∷◌, ◌++◌, map, Option, none, some, ◌≡◌, refl,
  if◌then◌else◌, ltb, leb, ◌==◌, ◌&&◌, length, length-append, arith,
}

pub record Channel : Type 0 where
  pub free : List ℕ
  pub capacity : ℕ

-- The IDs of the loop in NewRunner.
unfoldable pub box_ids : ℕ → ℕ → List ℕ
box_ids start zero = []
box_ids start (suc n) = start ∷ box_ids (suc start) n

unfoldable pub new_boxes : ℕ → ℕ → Channel
unfolding box_ids
new_boxes start count = record { free = box_ids start count; capacity = count }

-- `<-r.boxes`: none while the channel is empty, when the caller waits.
unfoldable pub receive : Channel → Option (ℕ × Channel)
receive c = elim c.free [ [] ↦ none | box ∷ rest ↦ some (box, record c { free = rest }) ]

-- `r.boxes <- boxID`: none while the channel is full, when the caller waits.
unfoldable pub send : ℕ → Channel → Option Channel
send box c =
    if ltb (length c.free) c.capacity then some (record c { free = c.free ++ (box ∷ []) }) else none

-- The channel, and the boxes that runs have between acquireBox and releaseBox.
pub record Pool : Type 0 where
  pub channel : Channel
  pub held : List ℕ

unfoldable pub new_pool : ℕ → ℕ → Pool
unfolding new_boxes
new_pool start count = record { channel = new_boxes start count; held = [] }

-- One run gets a box, or one of those that have a box gives it back.
pub data Step (s : Pool) : Pool → Type 0 where
  acquires :
      (box : ℕ) (c : Channel)
      → receive s.channel ≡ some (box, c)
      → Step s (record { channel = c; held = box ∷ s.held })
  releases :
      (box : ℕ) (c : Channel) (before after : List ℕ)
      → s.held ≡ before ++ (box ∷ after)
      → send box s.channel ≡ some c
      → Step s (record { channel = c; held = before ++ after })

pub data Reachable (start count : ℕ) : Pool → Type 0 where
  begins : Reachable start count (new_pool start count)
  steps : (s t : Pool) → Reachable start count s → Step s t → Reachable start count t
