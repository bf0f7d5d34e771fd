-- ===== src/Config/Laws.antt =====
-- What a validated configuration of internal/config/config.go promises to the rest of the program.
use batasd.Common.{
  Bool, true, false, ◌&&◌, not, Option, none, some, ◌≡◌, ◌⊎◌, ◌↔◌, inl, inr, refl, arith, subst,
}
use batasd.Common.Int.{ℤ, pos, negsuc, ltb_ℤ, leb_ℤ, ◌≤ℤ◌, ◌<ℤ◌}
use batasd.Common.Str.{Str, lit, is_empty, str_eq, str_eq_iff}
use batasd.Common.Errors.{ok, fail_if, fail_if-eq-ok, >>-eq-ok, ok_value}
use batasd.Submission.Model.{Limits}
use batasd.Submission.Limits.{validate_limit_overrides}
use batasd.Submission.Limits.Laws.{IsAllowed, AreAllowed, merge_limits-AreAllowed}
use batasd.Submission.Service.Checks.{choose_limits}
use batasd.Config.{
  Config, check_limit, validate_default_limits, is_isolate, is_known_driver, validate,
}

check_limit-IsAllowed :
    (name : Str) (value maximum : ℤ)
    → check_limit name value maximum ≡ ok tt
    → IsAllowed value maximum
unfolding check_limit
check_limit-IsAllowed name value maximum h =
    let (c1, h1) = >>-eq-ok _ _ h in
    let (c2, h2) = >>-eq-ok _ _ h1 in
    let (c3, _) = >>-eq-ok _ _ h2 in
    tests value maximum (fail_if-eq-ok _ _ c1) (fail_if-eq-ok _ _ c3)
  where
    tests :
        (v m : ℤ) → ltb_ℤ v (pos 0) ≡ false → (ltb_ℤ (pos 0) m && ltb_ℤ m v) ≡ false → IsAllowed v m
    tests (pos n) (pos m) a b = ground arith
    tests (pos n) (negsuc m) a b = ground arith
    tests (negsuc n) (pos m) a b = ground arith
    tests (negsuc n) (negsuc m) a b = ground arith

network_allowed :
    (wanted allowed : Bool) → (wanted && not allowed) ≡ false → (wanted ≡ false) ⊎ (allowed ≡ true)
network_allowed false allowed h = inl refl
network_allowed true true h = inr refl
network_allowed true false h = cc

pub validate_default_limits-AreAllowed :
    (defaults max : Limits) → validate_default_limits defaults max ≡ ok tt → AreAllowed defaults max
unfolding validate_default_limits
validate_default_limits-AreAllowed defaults max h =
    let (c1, h1) = >>-eq-ok _ _ h in
    let (c2, h2) = >>-eq-ok _ _ h1 in
    let (c3, h3) = >>-eq-ok _ _ h2 in
    let (c4, h4) = >>-eq-ok _ _ h3 in
    let (c5, h5) = >>-eq-ok _ _ h4 in
    let (c6, h6) = >>-eq-ok _ _ h5 in
    let (c7, h7) = >>-eq-ok _ _ h6 in
    let (c8, h8) = >>-eq-ok _ _ h7 in
    let (c9, h9) = >>-eq-ok _ _ h8 in
    let (c10, _) = >>-eq-ok _ _ h9 in
    record {
      cpu_time = check_limit-IsAllowed _ _ _ c1;
      cpu_extra = check_limit-IsAllowed _ _ _ c2;
      wall_time = check_limit-IsAllowed _ _ _ c3;
      memory = check_limit-IsAllowed _ _ _ c4;
      stack = check_limit-IsAllowed _ _ _ c5;
      processes = check_limit-IsAllowed _ _ _ c6;
      output = check_limit-IsAllowed _ _ _ c7;
      file = check_limit-IsAllowed _ _ _ c8;
      runs = check_limit-IsAllowed _ _ _ c9;
      network = network_allowed _ _ (fail_if-eq-ok _ _ c10);
    }

-- What the other components rely on.
pub record IsUsable (c : Config) : Type 0 where
  pub isolated_in_production : c.app_env ≡ lit "production" → c.sandbox.driver ≡ lit "isolate"
  pub has_workers : pos 0 <ℤ c.queue.workers
  pub boxes_start : c.sandbox.driver ≡ lit "isolate" → pos 0 ≤ℤ c.sandbox.isolate_box_id_start
  pub a_box_each :
      c.sandbox.driver ≡ lit "isolate" → c.queue.workers ≤ℤ c.sandbox.isolate_box_id_count
  pub polls : pos 0 <ℤ c.submissions.wait_poll_interval
  pub waits : pos 0 <ℤ c.submissions.wait_timeout
  pub limited : AreAllowed c.submissions.default_limits c.submissions.max_limits

not_below : (a b : ℤ) → ltb_ℤ a b ≡ false → b ≤ℤ a
not_below (pos a) (pos b) h = ground arith
not_below (pos a) (negsuc b) h = ground arith
not_below (negsuc a) (pos b) h = ground arith
not_below (negsuc a) (negsuc b) h = ground arith

above_zero : (a : ℤ) → leb_ℤ a (pos 0) ≡ false → pos 0 <ℤ a
above_zero (pos a) h = ground arith
above_zero (negsuc a) h = ground arith

at_least_one : (a : ℤ) → ltb_ℤ a (pos 1) ≡ false → pos 0 <ℤ a
at_least_one (pos a) h = ground arith
at_least_one (negsuc a) h = ground arith

-- The second test of a conjunction that failed although the first one held.
second_test : (first second : Bool) → (first && second) ≡ false → first ≡ true → second ≡ false
second_test true second h e = h
second_test false second h e = cc

holds_of_not : (test : Bool) → not test ≡ false → test ≡ true
holds_of_not true h = refl
holds_of_not false h = cc

is_isolate_iff : (c : Config) → (is_isolate c ≡ true) ↔ (c.sandbox.driver ≡ lit "isolate")
unfolding is_isolate
is_isolate_iff c = str_eq_iff c.sandbox.driver (lit "isolate")

-- A configuration that validates runs in production only in the isolate sandbox, has a worker, and
-- with isolate at least one box for each worker and no negative box number; its waiting times are
-- positive; and its default limits are allowed by its maximums.
pub validate-IsUsable : (quote : Str → Str) (c : Config) → validate quote c ≡ ok tt → IsUsable c
unfolding validate
validate-IsUsable quote c h =
    let (c1, h1) = >>-eq-ok (fail_if (is_empty c.app_env) _) _ h in
    let (c2, h2) = >>-eq-ok (fail_if (ltb_ℤ c.http.max_body_bytes (pos 1)) _) _ h1 in
    let (c3, h3) = >>-eq-ok (fail_if (not (is_known_driver c.sandbox.driver)) _) _ h2 in
    let (c4, h4) =
      >>-eq-ok (fail_if (str_eq c.app_env (lit "production") && not (is_isolate c)) _) _ h3 in
    let (c5, h5) =
      >>-eq-ok (fail_if (is_isolate c && ltb_ℤ c.sandbox.isolate_box_id_start (pos 0)) _) _ h4 in
    let (c6, h6) =
      >>-eq-ok (fail_if (is_isolate c && ltb_ℤ c.sandbox.isolate_box_id_count (pos 1)) _) _ h5 in
    let (c7, h7) = >>-eq-ok (fail_if (ltb_ℤ c.queue.workers (pos 1)) _) _ h6 in
    let (c8, h8) = >>-eq-ok (fail_if (leb_ℤ c.callback.timeout (pos 0)) _) _ h7 in
    let (c9, h9) = >>-eq-ok (fail_if (leb_ℤ c.submissions.wait_timeout (pos 0)) _) _ h8 in
    let (c10, h10) = >>-eq-ok (fail_if (leb_ℤ c.submissions.wait_poll_interval (pos 0)) _) _ h9 in
    let (c11, h11) =
      >>-eq-ok (validate_default_limits c.submissions.default_limits c.submissions.max_limits) _
        h10 in
    let (c12, _) =
      >>-eq-ok (fail_if (is_isolate c && ltb_ℤ c.sandbox.isolate_box_id_count c.queue.workers) _) _
        h11 in
    let driver = is_isolate_iff c in
    record {
      isolated_in_production = λ e. driver.0 (
          holds_of_not _ (
            second_test _ _ (fail_if-eq-ok _ _ c4)
              ((str_eq_iff c.app_env (lit "production")).1 e)));
      has_workers = at_least_one c.queue.workers (fail_if-eq-ok _ _ c7);
      boxes_start = λ e.
          not_below c.sandbox.isolate_box_id_start (pos 0)
            (second_test _ _ (fail_if-eq-ok _ _ c5) (driver.1 e));
      a_box_each = λ e.
          not_below c.sandbox.isolate_box_id_count c.queue.workers
            (second_test _ _ (fail_if-eq-ok _ _ c12) (driver.1 e));
      polls = above_zero c.submissions.wait_poll_interval (fail_if-eq-ok _ _ c10);
      waits = above_zero c.submissions.wait_timeout (fail_if-eq-ok _ _ c9);
      limited = validate_default_limits-AreAllowed _ _ c11;
    }

-- Under a configuration that validates, the limits that Create chooses for a language without limits
-- of its own are allowed by the maximums, whatever limits the request asks for.
pub choose_limits-AreAllowed :
    (quote : Str → Str) (c : Config) (asked : Option Limits) (chosen : Limits)
    → validate quote c ≡ ok tt
    → choose_limits c.submissions.default_limits c.submissions.max_limits asked ≡ ok chosen
    → AreAllowed chosen c.submissions.max_limits
unfolding choose_limits
choose_limits-AreAllowed quote c none chosen valid h =
    subst (λ (l : Limits). AreAllowed l c.submissions.max_limits) (ok_value h)
      (validate-IsUsable quote c valid).limited
choose_limits-AreAllowed quote c (some limits) chosen valid h =
    let (accepted, same) =
      >>-eq-ok (validate_limit_overrides limits c.submissions.max_limits) _ h in
    subst (λ (l : Limits). AreAllowed l c.submissions.max_limits) (ok_value same)
      (merge_limits-AreAllowed _ limits _ (validate-IsUsable quote c valid).limited accepted)
