-- ===== src/Sandbox/Isolate/Pool/Shared.antt =====
-- The pool of internal/sandbox/isolate/isolate.go: no box is shared, and none is lost.
use batasd.Common.{
  ℕ, zero, suc, ◌+◌, Bool, List, [], ◌∷◌, ◌++◌, some, ◌≡◌, refl, ap, ◌∙◌, if◌then◌else◌, ltb, leb,
  ◌==◌, ◌&&◌, length, length-append, arith,
}
use batasd.Sandbox.Isolate.Pool.{
  Channel, Pool, Step, Reachable, box_ids, new_boxes, new_pool, receive, send,
}
use batasd.Sandbox.Isolate.Pool.Step.{acquires, releases}
use batasd.Sandbox.Isolate.Pool.Reachable.{begins, steps}

-- How often a box occurs in a list.
abbrev pub occurs : ℕ → List ℕ → ℕ
occurs b [] = 0
occurs b (x ∷ xs) = (if x == b then 1 else 0) + occurs b xs

abbrev pub is_box : ℕ → ℕ → ℕ → Bool
is_box start count b = leb start b && ltb b (start + count)

occurs-append : (b : ℕ) (xs ys : List ℕ) → occurs b (xs ++ ys) ≡ occurs b xs + occurs b ys
occurs-append b [] ys = omega arith
occurs-append b (x ∷ xs) ys = omega (arith, occurs-append b xs ys)

occurs-box_ids :
    (b start count : ℕ) → occurs b (box_ids start count) ≡ (if is_box start count b then 1 else 0)
unfolding box_ids
occurs-box_ids b start zero = ground arith
occurs-box_ids b start (suc n) = ground (arith, occurs-box_ids b (suc start) n)

length-box_ids : (start count : ℕ) → length (box_ids start count) ≡ count
unfolding box_ids
length-box_ids start zero = refl
length-box_ids start (suc n) = ap suc (length-box_ids (suc start) n)

-- Every box of the pool is free or held by one run, and nothing else is.
pub record IsShared (start count : ℕ) (s : Pool) : Type 0 where
  pub once :
      (b : ℕ) → occurs b s.channel.free + occurs b s.held ≡ (if is_box start count b then 1 else 0)
  pub total : length s.channel.free + length s.held ≡ count
  pub capacity : s.channel.capacity ≡ count

-- What the operations of the channel do when they do not wait.
receive-eq-some :
    (c : Channel) {b : ℕ} {c' : Channel}
    → receive c ≡ some (b, c')
    → (c.free ≡ b ∷ c'.free) × (c'.capacity ≡ c.capacity)
unfolding receive
receive-eq-some c h = ground arith

send-eq-some :
    (b : ℕ) (c : Channel) {c' : Channel}
    → send b c ≡ some c'
    → (c'.free ≡ c.free ++ (b ∷ [])) × (c'.capacity ≡ c.capacity)
unfolding send
send-eq-some b c h = ground arith

Step-IsShared :
    (start count : ℕ) (s t : Pool) → Step s t → IsShared start count s → IsShared start count t
Step-IsShared start count s t (acquires box c e) i =
    let (free, same) = receive-eq-some s.channel e in
    record {
      once = λ b. omega (arith, i.once b, ap (occurs b) free);
      total = omega (arith, i.total, ap length free);
      capacity = same ∙ i.capacity;
    }
Step-IsShared start count s t (releases box c before after h e) i =
    let (free, same) = send-eq-some box s.channel e in
    record {
      once = λ b.
          let all = ap (occurs b) free in
          let was = ap (occurs b) h in
          omega (
            arith,
            i.once b,
            all,
            was,
            occurs-append b s.channel.free (box ∷ []),
            occurs-append b before (box ∷ after),
            occurs-append b before after,
          );
      total =
          let all = ap length free in
          let was = ap length h in
          omega (
            arith,
            i.total,
            all,
            was,
            length-append s.channel.free (box ∷ []),
            length-append before (box ∷ after),
            length-append before after,
          );
      capacity = same ∙ i.capacity;
    }

new_pool-IsShared : (start count : ℕ) → IsShared start count (new_pool start count)
unfolding new_pool new_boxes
new_pool-IsShared start count = record {
  once = λ b. omega (arith, occurs-box_ids b start count);
  total = omega (arith, length-box_ids start count);
  capacity = refl;
}

-- Whatever the order in which concurrent runs take boxes and give them back, each box number from
-- `start` up to but without `start + count` is either free or held by one run, no other number is
-- free or held, and the free and the held boxes together are `count`.
pub Reachable-IsShared :
    (start count : ℕ) (s : Pool) → Reachable start count s → IsShared start count s
Reachable-IsShared start count s begins = new_pool-IsShared start count
Reachable-IsShared start count u (steps s t r step) =
    Step-IsShared start count s t step (Reachable-IsShared start count s r)
