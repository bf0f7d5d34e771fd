-- ===== src/Queue/Counting.antt =====
-- The counters and the order of internal/queue/memory/queue.go under interleaved calls.
use mathlib.Core.List.{append_assoc}
use batasd.Common.{
  ℕ, zero, suc, ◌+◌, ◌≤◌, List, [], ◌∷◌, ◌++◌, length, length-append, ◌≡◌, refl, sym, ap, ◌∙◌,
  arith, if◌then◌else◌,
}
use batasd.Common.Int.{ℤ, pos, ltb_ℤ}
use batasd.Common.Str.{Str}
use batasd.Queue.{
  State, initial, announce, send, leave, retract, receive, activate, finish, Step, Reachable,
  increment, decrement, capacity, new_queue,
}
use batasd.Queue.Step.{announces, sends, leaves, retracts, receives, activates, finishes}
use batasd.Queue.Reachable.{starts, steps}

-- How many tokens are on their way: of calls that wait or leave, in the channel, and taken from it.
abbrev pub on_the_way : State → ℕ
on_the_way s = length s.waiting + s.leaving + (length s.queue.channel + length s.taken)

pub record IsCounted (s : State) : Type 0 where
  pub pending : s.queue.pending ≡ pos (on_the_way s)
  pub active : (n : ℕ) × (s.queue.active ≡ pos n)
  pub fits : length s.queue.channel ≤ capacity
  pub in_order : s.sent ≡ s.received ++ s.queue.channel

decremented : (z : ℤ) (m n : ℕ) → z ≡ pos m → m ≡ suc n → decrement z ≡ pos n
unfolding decrement
decremented z m n e f = rw (e, f) refl

incremented : (z : ℤ) (m n : ℕ) → z ≡ pos m → n ≡ suc m → increment z ≡ pos n
unfolding increment
incremented z m n e f = rw (e, f) refl

-- One more in a list than in the same list with one element taken out.
length-out :
    (xs before after : List Str) (x : Str)
    → xs ≡ before ++ (x ∷ after)
    → length xs ≡ suc (length (before ++ after))
length-out xs before after x e =
    let whole = length-append before (x ∷ after) in
    let rest = length-append before after in omega (arith, ap length e, whole, rest)

-- Done leaves a count that is no negative number one.
finished-active :
    (z : ℤ)
    → (n : ℕ) × (z ≡ pos n)
    → (n : ℕ) × ((if ltb_ℤ (pos 0) z then decrement z else z) ≡ pos n)
unfolding decrement
finished-active z (zero, e) = (0, rw e refl)
finished-active z (suc n, e) = (n, rw e (ground arith))

Step-IsCounted : (s t : State) → Step s t → IsCounted s → IsCounted t
unfolding announce send leave retract receive activate finish
Step-IsCounted s t (announces token) c = record {
  pending = incremented _ _ _ c.pending (omega arith);
  active = c.active;
  fits = c.fits;
  in_order = c.in_order;
}
Step-IsCounted s t (sends token before after e room) c =
    let one_out = length-out s.waiting before after token e in
    let one_in = length-append s.queue.channel (token ∷ []) in
    record {
      pending = c.pending ∙ ap pos (omega (arith, one_out, one_in));
      active = c.active;
      fits = omega (arith, one_in, room);
      in_order =
          ap (λ l. l ++ (token ∷ [])) c.in_order
          ∙ append_assoc s.received s.queue.channel (token ∷ []);
    }
Step-IsCounted s t (leaves token before after e) c =
    let one_out = length-out s.waiting before after token e in
    record {
      pending = c.pending ∙ ap pos (omega (arith, one_out));
      active = c.active;
      fits = c.fits;
      in_order = c.in_order;
    }
Step-IsCounted s t (retracts left e) c = record {
  pending = decremented _ _ _ c.pending (omega (arith, e));
  active = c.active;
  fits = c.fits;
  in_order = c.in_order;
}
Step-IsCounted s t (receives token rest e) c =
    let one_out = ap length e in
    record {
      pending = c.pending ∙ ap pos (omega (arith, one_out));
      active = c.active;
      fits = omega (arith, one_out, c.fits);
      in_order =
          c.in_order
          ∙ ap (λ l. s.received ++ l) e
          ∙ sym (append_assoc s.received (token ∷ []) rest);
    }
Step-IsCounted s t (activates token before after e) c =
    let one_out = length-out s.taken before after token e in
    record {
      pending = decremented _ _ _ c.pending (omega (arith, one_out));
      active = let (n, a) = c.active in (suc n, incremented _ _ _ a refl);
      fits = c.fits;
      in_order = c.in_order;
    }
Step-IsCounted s t finishes c = record {
  pending = c.pending;
  active = finished-active s.queue.active c.active;
  fits = c.fits;
  in_order = c.in_order;
}

-- However the calls are interleaved, the pending count is the number of tokens on their way: those of
-- Enqueue calls that are waiting or giving up, those in the channel, and those that a Dequeue
-- has taken and not yet counted. The active count is not negative, the channel keeps its capacity, and
-- the tokens leave it in the order in which they entered.
pub Reachable-IsCounted : (s : State) → Reachable s → IsCounted s
unfolding initial new_queue
Reachable-IsCounted s starts = record {
  pending = refl;
  active = (0, refl);
  fits = omega arith;
  in_order = refl;
}
Reachable-IsCounted after (steps s t r step) = Step-IsCounted s t step (Reachable-IsCounted s r)
