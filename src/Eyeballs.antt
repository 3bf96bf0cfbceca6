-- ===== src/Eyeballs.antt =====
-- src/happy_eyeballs.rs: attempts that are started one after the other and race each other.
-- What the executor and the clock do while a call waits is a schedule of events; `out` gives what
-- each attempt comes to. futures_util's `FuturesUnordered` is its list of running attempts.
pub mod Wait
pub mod Sound
pub mod Fails
pub mod Timer
pub mod Finish
pub mod Limits
pub mod Schedule
pub mod Returns
use hyperdriver.Base.{
  ℕ, zero, suc, ◌+◌, ◌-◌, Bool, true, false, if◌then◌else◌, List, [], ◌∷◌, ◌++◌, Option, none, some,
  length, Result, ok, err, is_some, is_nil, ◌&&◌, unwrap_or,
}

-- `HappyEyeballsError`; the duration of a timeout is in the clock's unit.
pub data HappyEyeballsError (E : Type 0) : Type 0 where
  timeout : ℕ → HappyEyeballsError E
  no_progress : HappyEyeballsError E
  error : E → HappyEyeballsError E

-- `Eyeball`: its `Ok`, `Error`, `Timeout` and `Exhausted`.
pub data Eyeball (T : Type 0) : Type 0 where
  got : T → Eyeball T
  failed timed_out exhausted : Eyeball T

-- An attempt that is running (by its place in the list) completes, the timer of one wait runs out,
-- or the timer of the whole call does.
pub data Event : Type 0 where
  completed : ℕ → Event
  delay_elapsed timeout_elapsed : Event

-- The clock, and the events to come, each with the clock's reading.
pub record World : Type 0 where
  pub now : ℕ
  pub events : List (ℕ × Event)

pub record EyeballSet (F E : Type 0) : Type 0 where
  pub queue : List F
  pub tasks : List F
  pub delay : Option ℕ
  pub timeout : Option ℕ
  pub started : Option ℕ
  pub initial_concurrency : Option ℕ
  pub error : Option (HappyEyeballsError E)

-- How a call of an async function ends: it returns, the timer of the whole call drops it where it
-- waits, or it still waits when the events are over. `panicked` is the panic in `process_all`, and
-- `out_of_fuel` the model's own bound; neither happens.
pub data Run (F E A : Type 0) : Type 0 where
  returned : A → EyeballSet F E → World → Run F E A
  dropped : EyeballSet F E → World → Run F E A
  waiting : EyeballSet F E → World → Run F E A
  panicked out_of_fuel : Run F E A

-- What `tasks.next()` comes to, under the timers that run.
pub data Next (F : Type 0) : Type 0 where
  item : F → List F → World → Next F
  empty late cut still : World → Next F

-- The running attempt at a place, and the others.
pub remove_at {ℓ} : {F : Type ℓ} → ℕ → List F → Option (F × List F)
remove_at i [] = none
remove_at zero (f ∷ fs) = some (f, fs)
remove_at (suc i) (f ∷ fs) = elim (remove_at i fs) [ none ↦ none | some (g, gs) ↦ some (g, f ∷ gs) ]

module _ {F : Type 0} where
  -- Waits for an attempt of `tasks`. `delayed` says that the wait has a timer of its own, `limited`
  -- that the whole call has one; an event that concerns none of these is passed over.
  pub wait : (delayed limited : Bool) → List F → ℕ → List (ℕ × Event) → Next F
  unfolding remove_at
  wait delayed limited tasks now [] = still (record { now = now; events = [] })
  wait delayed limited tasks now ((at, completed i) ∷ events) =
      let later = wait delayed limited tasks at events in
      elim (remove_at i tasks) [
        | none ↦ later
        | some (f, rest) ↦ item f rest (record { now = at; events = events })
      ]
  wait delayed limited tasks now ((at, delay_elapsed) ∷ events) =
      let later = wait delayed limited tasks at events in
      if delayed then late (record { now = at; events = events }) else later
  wait delayed limited tasks now ((at, timeout_elapsed) ∷ events) =
      let later = wait delayed limited tasks at events in
      if limited then cut (record { now = at; events = events }) else later

  -- `tasks.next()`: with no attempt running it is ready at once, with `None`.
  pub next : (delayed limited : Bool) → List F → World → Next F
  unfolding wait
  next delayed limited [] w = empty w
  next delayed limited (f ∷ fs) w = wait delayed limited (f ∷ fs) w.now w.events

module _ {F E : Type 0} where
  -- `EyeballSet::new`.
  pub new : Option ℕ → Option ℕ → Option ℕ → EyeballSet F E
  new pause limit concurrency = record {
    queue = [];
    tasks = [];
    delay = pause;
    timeout = limit;
    started = none;
    initial_concurrency = concurrency;
    error = none;
  }

  -- `EyeballSet::is_empty`.
  pub is_empty : EyeballSet F E → Bool
  is_empty s = is_nil s.tasks && is_nil s.queue

  -- `EyeballSet::len`.
  pub len : EyeballSet F E → ℕ
  len s = length s.tasks + length s.queue

  -- `EyeballSet::push`.
  pub push : EyeballSet F E → F → EyeballSet F E
  push s f = record s { queue = s.queue ++ f ∷ [] }

  -- `Extend::extend`.
  unfoldable pub extend : EyeballSet F E → List F → EyeballSet F E
  extend s fs = record s { queue = s.queue ++ fs }

  -- `self.queue.pop_front()` and `self.tasks.push(future)`, if there is one.
  start_one : List F → EyeballSet F E → EyeballSet F E
  start_one [] s = s
  start_one (f ∷ fs) s = record s { queue = fs; tasks = s.tasks ++ f ∷ [] }

  -- The first loop of `process_all`.
  pub start : ℕ → EyeballSet F E → EyeballSet F E
  unfolding start_one
  start zero s = s
  start (suc n) s = start n (start_one s.queue s)

module _ {F T E : Type 0} (out : F → Result T E) where
  -- The match of `join_next` on a failed attempt: the first error is kept.
  keep_error : EyeballSet F E → E → Option (HappyEyeballsError E) → EyeballSet F E
  keep_error s e none = record s { error = some (error e) }
  keep_error s e (some x) = s

  on_item : EyeballSet F E → World → Result T E → Run F E (Eyeball T)
  unfolding keep_error
  on_item s w (ok t) = returned (got t) s w
  on_item s w (err e) = returned failed (keep_error s e s.error) w

  on_next : EyeballSet F E → Next F → Run F E (Eyeball T)
  unfolding on_item
  on_next s (item f rest w) = on_item (record s { tasks = rest }) w (out f)
  on_next s (empty w) = returned exhausted s w
  on_next s (late w) = returned timed_out s w
  on_next s (cut w) = dropped s w
  on_next s (still w) = waiting s w

  -- `self.started.get_or_insert_with(Instant::now)`.
  mark : EyeballSet F E → ℕ → EyeballSet F E
  mark s now = record s { started = some (unwrap_or now s.started) }

  -- `join_next`, under a timer of its own if `delayed`.
  pub join : Bool → EyeballSet F E → World → Run F E (Eyeball T)
  unfolding on_next mark next
  join delayed s w = on_next (mark s w.now) (next delayed (is_some s.timeout) s.tasks w)

  pub join_next : EyeballSet F E → World → Run F E (Eyeball T)
  unfolding join
  join_next s w = join false s w

  pub join_next_with_timeout : EyeballSet F E → World → Run F E (Eyeball T)
  unfolding join
  join_next_with_timeout s w = join (is_some s.delay) s w

  -- The `while let` of `process_all`, with `f` popped; `more` goes on with the loop.
  on_stagger :
      (EyeballSet F E → World → Run F E (Result T (HappyEyeballsError E)))
      → F
      → Run F E (Eyeball T)
      → Run F E (Result T (HappyEyeballsError E))
  on_stagger more f (returned (got t) s w) = returned (ok t) s w
  on_stagger more f (returned failed s w) = more (record s { tasks = s.tasks ++ f ∷ [] }) w
  on_stagger more f (returned timed_out s w) = more (record s { tasks = s.tasks ++ f ∷ [] }) w
  on_stagger more f (returned exhausted s w) = more (record s { tasks = s.tasks ++ f ∷ [] }) w
  on_stagger more f (dropped s w) = dropped s w
  on_stagger more f (waiting s w) = waiting s w
  on_stagger more f panicked = panicked
  on_stagger more f out_of_fuel = out_of_fuel

  -- `self.error.take()`, or `NoProgress`.
  exhaust : EyeballSet F E → World → Run F E (Result T (HappyEyeballsError E))
  exhaust s w = returned (err (unwrap_or no_progress s.error)) (record s { error = none }) w

  -- The body of the last `loop` of `process_all`.
  on_drain :
      (EyeballSet F E → World → Run F E (Result T (HappyEyeballsError E)))
      → Run F E (Eyeball T)
      → Run F E (Result T (HappyEyeballsError E))
  unfolding exhaust
  on_drain more (returned (got t) s w) = returned (ok t) s w
  on_drain more (returned failed s w) = more s w
  on_drain more (returned timed_out s w) = panicked
  on_drain more (returned exhausted s w) = exhaust s w
  on_drain more (dropped s w) = dropped s w
  on_drain more (waiting s w) = waiting s w
  on_drain more panicked = panicked
  on_drain more out_of_fuel = out_of_fuel

  drain : ℕ → EyeballSet F E → World → Run F E (Result T (HappyEyeballsError E))
  unfolding on_drain join_next
  drain zero s w = out_of_fuel
  drain (suc fuel) s w = on_drain (drain fuel) (join_next s w)

  pub stagger : List F → EyeballSet F E → World → Run F E (Result T (HappyEyeballsError E))
  unfolding on_stagger drain join_next_with_timeout
  stagger [] s w = drain (suc (length s.tasks)) s w
  stagger (f ∷ fs) s w =
      on_stagger (stagger fs) f (join_next_with_timeout (record s { queue = fs }) w)

  pub begin : EyeballSet F E → EyeballSet F E
  begin s = start (unwrap_or (length s.queue) s.initial_concurrency) s

  -- `process_all`.
  pub process_all : EyeballSet F E → World → Run F E (Result T (HappyEyeballsError E))
  unfolding stagger start begin
  process_all s w = stagger (begin s).queue (begin s) w

  -- The match of `finish`: the whole call was dropped by its timer, or has a result.
  on_finish : Run F E (Result T (HappyEyeballsError E)) → Run F E (Result T (HappyEyeballsError E))
  on_finish (dropped s w) = returned (err (timeout (w.now - unwrap_or w.now s.started))) s w
  on_finish (returned r s w) = returned r s w
  on_finish (waiting s w) = waiting s w
  on_finish panicked = panicked
  on_finish out_of_fuel = out_of_fuel

  -- `finish`.
  unfoldable pub finish : EyeballSet F E → World → Run F E (Result T (HappyEyeballsError E))
  unfolding on_finish process_all
  finish s w = on_finish (process_all s w)
