-- ===== src/Tests/Queue.antt =====
-- Two tokens on the memory queue, of which one is taken.
use batasd.Common.{[], ◌∷◌, ◌≡◌, refl, arith}
use batasd.Common.Int.{pos}
use batasd.Common.Str.{lit}
use batasd.Queue.{State, Reachable, initial, announce, send, receive, activate, stats, new_queue}
use batasd.Queue.Step.{announces, sends, receives, activates}
use batasd.Queue.Reachable.{starts, steps}
use batasd.Queue.Counting.{IsCounted, Reachable-IsCounted}

abbrev two_waiting : State
two_waiting = announce (lit "b") (announce (lit "a") initial)

abbrev one_sent : State
one_sent = send (lit "a") (lit "b" ∷ []) two_waiting

abbrev one_taken : State
one_taken = receive (lit "a") [] one_sent

abbrev one_active : State
one_active = activate [] one_taken

reached : Reachable one_active
unfolding announce send receive initial new_queue
reached =
    steps _ _
      (steps _ _
        (steps _ _ (steps _ _ (steps _ _ starts (announces (lit "a"))) (announces (lit "b")))
          (sends (lit "a") (lit "b" ∷ []) [] refl (omega arith)))
        (receives (lit "a") [] refl))
      (activates (lit "a") [] [] refl)

stats_test : stats one_active ≡ (pos 1, pos 1)
unfolding stats announce send receive activate initial
stats_test = refl

Reachable-IsCounted_example : IsCounted one_active
Reachable-IsCounted_example = Reachable-IsCounted one_active reached
