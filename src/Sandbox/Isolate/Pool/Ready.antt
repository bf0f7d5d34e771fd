-- ===== src/Sandbox/Isolate/Pool/Ready.antt =====
-- When acquireBox and releaseBox of internal/sandbox/isolate/isolate.go go through at once.
use batasd.Common.{
  ℕ, ◌<◌, List, [], ◌∷◌, ◌++◌, some, ◌≡◌, refl, ap, length, length-append, arith, ltb-eq-true,
}
use batasd.Common.Int.{pos, pos_part, neg_part, ◌<ℤ◌}
use batasd.Common.Str.{Str, lit}
use batasd.Common.Errors.{ok}
use batasd.Config.{Config, validate}
use batasd.Config.Laws.{validate-IsUsable}
use batasd.Sandbox.Isolate.Pool.{Channel, Pool, Reachable, receive, send}
use batasd.Sandbox.Isolate.Pool.Shared.{Reachable-IsShared}

receive_ready :
    (c : Channel) (free : List ℕ)
    → c.free ≡ free
    → 0 < length free
    → (b : ℕ) × (c' : Channel) × (receive c ≡ some (b, c'))
unfolding receive
receive_ready c [] e h = absurd (omega arith)
receive_ready c (b ∷ rest) e h = (b, record c { free = rest }, rw e refl)

send_ready :
    (b : ℕ) (c : Channel) → length c.free < c.capacity → (c' : Channel) × (send b c ≡ some c')
unfolding send
send_ready b c h =
    (record c { free = c.free ++ (b ∷ []) }, rw (ltb-eq-true (length c.free) c.capacity h) refl)

-- With a validated configuration that chooses isolate, and in every state that concurrent runs can
-- lead the pool to: while fewer runs than there are workers hold a box, the next acquireBox gets one
-- without waiting, and a run that holds a box gives it back without waiting.
pub isolate_pool-ready :
    (quote : Str → Str) (c : Config) (start count : ℕ) (s : Pool)
    → validate quote c ≡ ok tt
    → c.sandbox.driver ≡ lit "isolate"
    → c.sandbox.isolate_box_id_count ≡ pos count
    → Reachable start count s
    → (pos (length s.held) <ℤ c.queue.workers
        → (box : ℕ) × (rest : Channel) × (receive s.channel ≡ some (box, rest)))
      × ((box : ℕ) (before after : List ℕ)
          → s.held ≡ before ++ (box ∷ after)
          → (rest : Channel) × (send box s.channel ≡ some rest))
isolate_pool-ready quote c start count s valid driver boxes r =
    let shared = Reachable-IsShared start count s r in
    let enough = (validate-IsUsable quote c valid).a_box_each driver in
    (
      λ few.
          receive_ready s.channel s.channel.free refl
            (omega (arith, shared.total, few, enough, ap pos_part boxes, ap neg_part boxes)),
      λ box before after e. send_ready box s.channel (
          omega (
            arith,
            shared.total,
            shared.capacity,
            ap length e,
            length-append before (box ∷ after),
          )),
    )
