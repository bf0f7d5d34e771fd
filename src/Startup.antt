-- ===== src/Startup.antt =====
-- cmd/batasd/main.go: what the service does between its configuration and its first request.
pub mod Recovered
use batasd.Common.{ℕ, Bool, List, [], ◌∷◌, ◌++◌, Option, none, some, if◌then◌else◌}
use batasd.Common.Int.{ℤ, pos_part}
use batasd.Common.Str.{Str, lit, str_eq}
use batasd.Common.Errors.{Error, wrap, Result, ok, err}
use batasd.Common.Effects.{Io, ◌>>=◌, ◌>>◌, return}
use batasd.Submission.Model.{Time}
use batasd.Config.{Config}

-- The interfaces unfinishedRecoverer and submissionEnqueuer, and the clock.
pub record Recoverer (W : Type 0) : Type 0 where
  pub recover_unfinished : Time → Io W (List Str)
  pub enqueue : Str → Io W (Unit {0})
  pub now : W → Time × W

abbrev wrap_error : Str → Result (Unit {0}) → Result (Unit {0})
wrap_error prefix (ok done) = ok done
wrap_error prefix (err e) = err (wrap prefix e)

module _ {W : Type 0} (r : Recoverer W) where
  enqueue_recovered : Str → Io W (Unit {0})
  enqueue_recovered token w =
      let (result, w') = r.enqueue token w in
      (wrap_error (lit "enqueue recovered submission " ++ (token ++ lit ": ")) result, w')

  unfoldable pub enqueue_all : List Str → Io W (Unit {0})
  unfolding enqueue_recovered
  enqueue_all [] = return tt
  enqueue_all (token ∷ tokens) = enqueue_recovered token >> enqueue_all tokens

  unfoldable pub recover_unfinished_submissions : Io W (Unit {0})
  unfolding enqueue_all
  recover_unfinished_submissions w =
      let (now, w') = r.now w in (r.recover_unfinished now >>= enqueue_all) w'

-- The switch over the configured driver.
pub data Driver : Type 0 where
  direct : Driver
  docker : (binary image : Str) → Driver
  isolate : (binary : Str) (box_id_start box_id_count : ℤ) (use_cg : Bool) → Driver

unfoldable pub choose_driver : Config → Option Driver
unfolding str_eq
choose_driver c =
    if str_eq c.sandbox.driver (lit "direct")
    then some direct
    else if str_eq c.sandbox.driver (lit "docker")
    then some (docker c.sandbox.docker_binary c.sandbox.docker_image)
    else if str_eq c.sandbox.driver (lit "isolate")
    then some (
        isolate c.sandbox.isolate_binary c.sandbox.isolate_box_id_start
          c.sandbox.isolate_box_id_count c.sandbox.isolate_control_group)
    else none
