-- ===== src/Startup/Recovered.antt =====
-- recoverUnfinishedSubmissions of cmd/batasd/main.go over the table of submissions and the queue.
use mathlib.Core.List.{Permᴰ, append_assoc, append-nil}
use batasd.Common.{
  map, List, [], ◌∷◌, ◌++◌, Option, none, some, ◌≡◌, refl, sym, ◌∙◌, ap, subst, All,
}
use batasd.Common.Str.{Str}
use batasd.Common.Errors.{Error, Result, ok, err}
use batasd.Common.Effects.{with_world, continue_with, continue_with-eq-ok}
use batasd.Submission.Model.{Time, Submission}
use batasd.Store.{recover_unfinished, unfinished_rows, oldest_first}
use batasd.Store.Recovery.Order.{IsOldestFirst, oldest_first-IsOldestFirst, oldest_first-Permᴰ}
use batasd.Store.Recovery.{IsRecovered, recover_unfinished-IsRecovered}
use batasd.Startup.{Recoverer, enqueue_recovered, enqueue_all, recover_unfinished_submissions}

-- The table, and the tokens that the queue took, in their order.
pub record Stored : Type 0 where
  pub rows : List Submission
  pub sent : List Str

abbrev take_token : Option Error → Str → Stored → Result (Unit {0}) × Stored
take_token none token s = (ok tt, record s { sent = s.sent ++ (token ∷ []) })
take_token (some e) token s = (err e, s)

-- The queue takes a token, or refuses it because the context ended.
abbrev pub stored : (Str → Option Error) → Time → Recoverer Stored
stored refuses at = record {
  recover_unfinished = λ now s.
      (ok (recover_unfinished now s.rows).0, record s { rows = (recover_unfinished now s.rows).1 });
  enqueue = λ token. take_token (refuses token) token;
  now = λ s. (at, s);
}

module _ (refuses : Str → Option Error) (at : Time) where
  sent-enqueue_recovered :
      (token : Str) (refused : Option Error) (s s' : Stored)
      → refuses token ≡ refused
      → enqueue_recovered (stored refuses at) token s ≡ (ok tt, s')
      → s' ≡ record s { sent = s.sent ++ (token ∷ []) }
  unfolding enqueue_recovered
  sent-enqueue_recovered token none s s' e h = sym (ap (λ t. t.1) (rw e at h))
  sent-enqueue_recovered token (some e) s s' r h =
      let failed = ap (λ t. t.0) (rw r at h) in absurd (cc)

  sent-enqueue_all :
      (tokens : List Str) (s s' : Stored)
      → enqueue_all (stored refuses at) tokens s ≡ (ok tt, s')
      → s' ≡ record s { sent = s.sent ++ tokens }
  unfolding enqueue_all
  sent-enqueue_all [] s s' h =
      sym (ap (λ t. t.1) h) ∙ λ i. record s { sent = sym (append-nil s.sent) i }
  sent-enqueue_all (token ∷ tokens) s s' h =
      let (done, first, rest) =
        continue_with-eq-ok _ (enqueue_recovered (stored refuses at) token s).0 _ h in
      let step = sent-enqueue_recovered token (refuses token) s _ refl (with_world _ first) in
      sent-enqueue_all tokens _ s' rest
      ∙ (ap (λ (t : Stored). record t { sent = t.sent ++ tokens }) step ∙ λ i. record s {
        sent = append_assoc s.sent (token ∷ []) tokens i;
      })

-- When the recovery before the first request succeeds, the queue has taken, behind what it held, the
-- tokens of `recovered` in their order, which are the submissions that were unfinished, oldest first;
-- and every submission in the table is then terminal, or queued with its token among those. So none
-- is lost by a restart.
pub recovery-loses_nothing :
    (refuses : Str → Option Error) (at : Time) (s s' : Stored)
    → recover_unfinished_submissions (stored refuses at) s ≡ (ok tt, s')
    → (recovered : List Submission) × Permᴰ (unfinished_rows s.rows) recovered
      × IsOldestFirst recovered
      × (s'.sent ≡ s.sent ++ map (λ row. row.token) recovered)
      × All (IsRecovered (map (λ row. row.token) recovered)) s'.rows
unfolding recover_unfinished_submissions continue_with recover_unfinished
recovery-loses_nothing refuses at s s' h =
    let e = sent-enqueue_all refuses at (recover_unfinished at s.rows).0 _ s' h in
    (
      oldest_first (unfinished_rows s.rows),
      oldest_first-Permᴰ (unfinished_rows s.rows),
      oldest_first-IsOldestFirst (unfinished_rows s.rows),
      ap (λ t. t.sent) e,
      subst (λ (rows : List Submission). All (IsRecovered (recover_unfinished at s.rows).0) rows)
          (sym (ap (λ t. t.rows) e)) (recover_unfinished-IsRecovered at s.rows),
    )
