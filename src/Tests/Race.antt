-- ===== src/Tests/Race.antt =====
-- Races of a few attempts: the attempt `n` succeeds with `n` if it is even and else fails with it.
use hyperdriver.Base.{
  ℕ, ◌%◌, ◌==◌, ◌≡◌, refl, ◌<◌, if◌then◌else◌, [], ◌∷◌, none, some, Result, ok, err, arith, max,
}
use hyperdriver.Eyeballs.{
  HappyEyeballsError, completed, timeout_elapsed, World, returned, EyeballSet, finish,
}
use hyperdriver.Eyeballs.Finish.{Finished, finish-Finished}
use hyperdriver.Eyeballs.Returns.{finish-returned}
use hyperdriver.Eyeballs.Limits.{Bounded, finish-Bounded}

abbrev out : ℕ → Result ℕ ℕ
out n = if n % 2 == 0 then ok n else err n

abbrev racing : EyeballSet ℕ ℕ
racing = record {
  queue = 1 ∷ 2 ∷ [];
  tasks = [];
  delay = some 10;
  timeout = some 100;
  started = none;
  initial_concurrency = some 1;
  error = none;
}

-- The first attempt fails, the second one is started and succeeds.
abbrev calm : World
calm = record { now = 0; events = (3, completed 0) ∷ (5, completed 0) ∷ [] }

-- The attempts are those below 3.
abbrev Small : ℕ → Type 0
Small n = n < 3

-- The first attempt fails, and the timer of the call runs out while the second one is running.
abbrev too_late : World
too_late = record { now = 0; events = (3, completed 0) ∷ (100, timeout_elapsed) ∷ [] }

finish-Finished_example : Finished out Small racing too_late (finish out racing too_late)
finish-Finished_example =
    finish-Finished out Small racing too_late tt (omega arith, (omega arith, tt)) refl

abbrev without_delay : EyeballSet ℕ ℕ
without_delay = record {
  queue = 1 ∷ 3 ∷ 5 ∷ [];
  tasks = [];
  delay = none;
  timeout = none;
  started = none;
  initial_concurrency = some 2;
  error = none;
}

finish-Bounded_example : Bounded out (max 2 1) (finish out without_delay calm)
finish-Bounded_example = finish-Bounded out without_delay calm 2 refl refl refl

finish-returned_example :
    (r : Result ℕ (HappyEyeballsError ℕ)) × (s' : EyeballSet ℕ ℕ) × (w' : World) × (finish out
        racing calm
      ≡ returned r s' w')
finish-returned_example = finish-returned out racing calm refl (omega arith)
