-- ===== src/Queue.antt =====
-- internal/queue/memory/queue.go. The calls of Enqueue, Dequeue and Done that run at the same time
-- are interleaved at their critical sections and at the operations on the channel: each operation
-- below is one such piece, and a piece that another call may come before leaves a trace of its call.
pub mod Counting
use batasd.Common.{ℕ, zero, suc, ◌<◌, List, [], ◌∷◌, ◌++◌, if◌then◌else◌, length, ◌≡◌}
use batasd.Common.Int.{ℤ, pos, negsuc, ltb_ℤ}
use batasd.Common.Str.{Str}

-- `x++` and `x--`. The counters count calls, so they stay far from the ends of an int.
unfoldable pub increment : ℤ → ℤ
increment (pos n) = pos (suc n)
increment (negsuc zero) = pos 0
increment (negsuc (suc n)) = negsuc n

unfoldable pub decrement : ℤ → ℤ
decrement (pos zero) = negsuc 0
decrement (pos (suc n)) = pos n
decrement (negsuc n) = negsuc (suc n)

abbrev pub capacity : ℕ
capacity = 1024

-- The channel and the counters.
pub record Queue : Type 0 where
  pub channel : List Str
  pub pending : ℤ
  pub active : ℤ

unfoldable pub new_queue : Queue
new_queue = record { channel = []; pending = pos 0; active = pos 0 }

-- The queue and the calls under way: Enqueue before its select, Enqueue that saw the end of its
-- context, and Dequeue that has a token. `sent` and `received` are the tokens that went through the
-- channel, in their order.
pub record State : Type 0 where
  pub queue : Queue
  pub waiting : List Str
  pub leaving : ℕ
  pub taken : List Str
  pub sent : List Str
  pub received : List Str

unfoldable pub initial : State
unfolding new_queue
initial = record {
  queue = new_queue;
  waiting = [];
  leaving = 0;
  taken = [];
  sent = [];
  received = [];
}

-- The first critical section of Enqueue.
unfoldable pub announce : Str → State → State
unfolding increment
announce token s = record s {
  queue = record (s.queue) { pending = increment s.queue.pending };
  waiting = token ∷ s.waiting;
}

-- `q.ch <- token`, when the call with `others` beside it is chosen.
unfoldable pub send : Str → List Str → State → State
send token others s = record s {
  queue = record (s.queue) { channel = s.queue.channel ++ (token ∷ []) };
  waiting = others;
  sent = s.sent ++ (token ∷ []);
}

-- `<-ctx.Done()` in Enqueue, and the critical section behind it.
unfoldable pub leave : List Str → State → State
leave others s = record s { waiting = others; leaving = suc s.leaving }

unfoldable pub retract : ℕ → State → State
unfolding decrement
retract left s = record s {
  queue = record (s.queue) { pending = decrement s.queue.pending };
  leaving = left;
}

-- `token := <-q.ch`, and the critical section behind it.
unfoldable pub receive : Str → List Str → State → State
receive token rest s = record s {
  queue = record (s.queue) { channel = rest };
  taken = token ∷ s.taken;
  received = s.received ++ (token ∷ []);
}

unfoldable pub activate : List Str → State → State
unfolding decrement increment
activate others s = record s {
  queue = record (s.queue) {
    pending = decrement s.queue.pending;
    active = increment s.queue.active;
  };
  taken = others;
}

-- Done.
unfoldable pub finish : State → State
unfolding decrement
finish s = record s {
  queue = record (s.queue) {
    active = if ltb_ℤ (pos 0) s.queue.active then decrement s.queue.active else s.queue.active;
  };
}

-- Stats.
unfoldable pub stats : State → ℤ × ℤ
stats s = (s.queue.pending, s.queue.active)

-- What can happen next. A call that is chosen stands among the others of its kind.
pub data Step (s : State) : State → Type 0 where
  announces : (token : Str) → Step s (announce token s)
  sends :
      (token : Str) (before after : List Str)
      → s.waiting ≡ before ++ (token ∷ after)
      → length s.queue.channel < capacity
      → Step s (send token (before ++ after) s)
  leaves :
      (token : Str) (before after : List Str)
      → s.waiting ≡ before ++ (token ∷ after)
      → Step s (leave (before ++ after) s)
  retracts : (left : ℕ) → s.leaving ≡ suc left → Step s (retract left s)
  receives :
      (token : Str) (rest : List Str)
      → s.queue.channel ≡ token ∷ rest
      → Step s (receive token rest s)
  activates :
      (token : Str) (before after : List Str)
      → s.taken ≡ before ++ (token ∷ after)
      → Step s (activate (before ++ after) s)
  finishes : Step s (finish s)

pub data Reachable : State → Type 0 where
  starts : Reachable initial
  steps : (s t : State) → Reachable s → Step s t → Reachable t
