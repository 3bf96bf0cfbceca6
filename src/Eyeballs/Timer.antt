-- ===== src/Eyeballs/Timer.antt =====
-- When the timer of the whole call drops it: the events that a call has used up, and the one that
-- ended it.
use hyperdriver.Base.{
  ℕ, zero, suc, ◌≡◌, refl, ap, ◌∙◌, Bool, true, false, List, [], ◌∷◌, ◌++◌, append_assoc, Option,
  none, some, length, Result, ok, err, is_some, sym,
}
use hyperdriver.Eyeballs.{
  HappyEyeballsError, Eyeball, got, failed, timed_out, exhausted, Event, completed, delay_elapsed,
  timeout_elapsed, World, EyeballSet, Run, returned, dropped, waiting, panicked, out_of_fuel, Next,
  item, empty, late, cut, still, remove_at, wait, next, on_item, on_next, mark, join, join_next,
  join_next_with_timeout, on_stagger, on_drain, exhaust, drain, stagger,
}

-- Some events are over, and those of `w` are left.
abbrev pub Passed : List (ℕ × Event) → World → Type 0
Passed events w = (before : List (ℕ × Event)) × (events ≡ before ++ w.events)

-- The last event that is over is the timer of the call, and it has run out at the clock's reading.
abbrev pub TimerOut : List (ℕ × Event) → World → Type 0
TimerOut events w =
    (before : List (ℕ × Event)) × (events ≡ before ++ (w.now, timeout_elapsed) ∷ w.events)

TimerOut-after :
    (events : List (ℕ × Event)) (w w' : World)
    → Passed events w
    → TimerOut w.events w'
    → TimerOut events w'
TimerOut-after events w w' (b, e) (c, k) =
    (b ++ c, e ∙ ap (◌++◌ b) k ∙ sym (append_assoc b c ((w'.now, timeout_elapsed) ∷ w'.events)))

module _ {F : Type 0} where
  abbrev Uses : List (ℕ × Event) → Next F → Type 0
  Uses events (item f rest w) = Passed events w
  Uses events (empty w) = Passed events w
  Uses events (late w) = Passed events w
  Uses events (cut w) = TimerOut events w
  Uses events (still w) = Unit

  Uses-later :
      (x : ℕ × Event) (events : List (ℕ × Event)) (n : Next F) → Uses events n → Uses (x ∷ events) n
  Uses-later x events (item f rest w) (b, e) = (x ∷ b, ap (◌∷◌ x) e)
  Uses-later x events (empty w) (b, e) = (x ∷ b, ap (◌∷◌ x) e)
  Uses-later x events (late w) (b, e) = (x ∷ b, ap (◌∷◌ x) e)
  Uses-later x events (cut w) (b, e) = (x ∷ b, ap (◌∷◌ x) e)
  Uses-later x events (still w) h = tt

  completed-Uses :
      (at i : ℕ) (events : List (ℕ × Event)) (found : Option (F × List F)) (later : Next F)
      → Uses events later
      → Uses ((at, completed i) ∷ events) (elim found [
        | none ↦ later
        | some (f, rest) ↦ item f rest (record { now = at; events = events })
      ])
  completed-Uses at i events none later u = Uses-later (at, completed i) events later u
  completed-Uses at i events (some (f, rest)) later u = ((at, completed i) ∷ [], refl)

  wait-Uses :
      (delayed limited : Bool) (tasks : List F) (now : ℕ) (events : List (ℕ × Event))
      → Uses events (wait delayed limited tasks now events)
  unfolding wait
  wait-Uses delayed limited tasks now [] = tt
  wait-Uses delayed limited tasks now ((at, completed i) ∷ events) =
      completed-Uses at i events (remove_at i tasks) _ (wait-Uses delayed limited tasks at events)
  wait-Uses true limited tasks now ((at, delay_elapsed) ∷ events) = (_ ∷ [], refl)
  wait-Uses false limited tasks now ((at, delay_elapsed) ∷ events) =
      Uses-later _ events _ (wait-Uses false limited tasks at events)
  wait-Uses delayed true tasks now ((at, timeout_elapsed) ∷ events) = ([], refl)
  wait-Uses delayed false tasks now ((at, timeout_elapsed) ∷ events) =
      Uses-later _ events _ (wait-Uses delayed false tasks at events)

  next-Uses :
      (delayed limited : Bool) (tasks : List F) (w : World)
      → Uses w.events (next delayed limited tasks w)
  unfolding next
  next-Uses delayed limited [] w = ([], refl)
  next-Uses delayed limited (f ∷ fs) w = wait-Uses delayed limited (f ∷ fs) w.now w.events

module _ {F T E : Type 0} (out : F → Result T E) where
  abbrev Ends : Type 0
  Ends = Run F E (Result T (HappyEyeballsError E))

  -- What one wait says of the events.
  abbrev After : List (ℕ × Event) → Run F E (Eyeball T) → Type 0
  After events (returned y s w) = Passed events w
  After events (dropped s w) = TimerOut events w
  After events (waiting s w) = Unit
  After events panicked = Unit
  After events out_of_fuel = Unit

  -- A call is dropped by its timer only.
  abbrev pub Drops : List (ℕ × Event) → Ends → Type 0
  Drops events (returned y s w) = Unit
  Drops events (dropped s w) = TimerOut events w
  Drops events (waiting s w) = Unit
  Drops events panicked = Unit
  Drops events out_of_fuel = Unit

  Drops-after :
      (events : List (ℕ × Event)) (w : World) (x : Ends)
      → Passed events w
      → Drops w.events x
      → Drops events x
  Drops-after events w (returned y s v) p d = tt
  Drops-after events w (dropped s v) p d = TimerOut-after events w v p d
  Drops-after events w (waiting s v) p d = tt
  Drops-after events w panicked p d = tt
  Drops-after events w out_of_fuel p d = tt

  on_item-After :
      (events : List (ℕ × Event)) (s : EyeballSet F E) (w : World) (r : Result T E)
      → Passed events w
      → After events (on_item out s w r)
  unfolding on_item
  on_item-After events s w (ok t) p = p
  on_item-After events s w (err e) p = p

  on_next-After :
      (events : List (ℕ × Event)) (s : EyeballSet F E) (n : Next F)
      → Uses events n
      → After events (on_next out s n)
  unfolding on_next
  on_next-After events s (item f rest w) u =
      on_item-After events (record s { tasks = rest }) w (out f) u
  on_next-After events s (empty w) u = u
  on_next-After events s (late w) u = u
  on_next-After events s (cut w) u = u
  on_next-After events s (still w) u = tt

  join-After :
      (delayed : Bool) (s : EyeballSet F E) (w : World) → After w.events (join out delayed s w)
  unfolding join
  join-After delayed s w =
      on_next-After w.events (mark out s w.now) _ (next-Uses delayed (is_some s.timeout) s.tasks w)

  abbrev Keeps : (EyeballSet F E → World → Ends) → Type 0
  Keeps more = (s : EyeballSet F E) (w : World) → Drops w.events (more s w)

  on_drain-Drops :
      (more : EyeballSet F E → World → Ends)
      → Keeps more
      → (events : List (ℕ × Event)) (x : Run F E (Eyeball T)) → After events x
      → Drops events (on_drain out more x)
  unfolding on_drain exhaust
  on_drain-Drops more ih events (returned (got t) s w) p = tt
  on_drain-Drops more ih events (returned failed s w) p = Drops-after events w _ p (ih s w)
  on_drain-Drops more ih events (returned timed_out s w) p = tt
  on_drain-Drops more ih events (returned exhausted s w) p = tt
  on_drain-Drops more ih events (dropped s w) p = p
  on_drain-Drops more ih events (waiting s w) p = tt
  on_drain-Drops more ih events panicked p = tt
  on_drain-Drops more ih events out_of_fuel p = tt

  drain-Drops : (fuel : ℕ) → Keeps (drain out fuel)
  unfolding drain join_next
  drain-Drops zero s w = tt
  drain-Drops (suc fuel) s w =
      on_drain-Drops (drain out fuel) (drain-Drops fuel) w.events _ (join-After false s w)

  on_stagger-Drops :
      (more : EyeballSet F E → World → Ends)
      → Keeps more
      → (f : F) (events : List (ℕ × Event)) (x : Run F E (Eyeball T)) → After events x
      → Drops events (on_stagger out more f x)
  unfolding on_stagger
  on_stagger-Drops more ih f events (returned (got t) s w) p = tt
  on_stagger-Drops more ih f events (returned failed s w) p = Drops-after events w _ p (ih _ w)
  on_stagger-Drops more ih f events (returned timed_out s w) p = Drops-after events w _ p (ih _ w)
  on_stagger-Drops more ih f events (returned exhausted s w) p = Drops-after events w _ p (ih _ w)
  on_stagger-Drops more ih f events (dropped s w) p = p
  on_stagger-Drops more ih f events (waiting s w) p = tt
  on_stagger-Drops more ih f events panicked p = tt
  on_stagger-Drops more ih f events out_of_fuel p = tt

  pub stagger-Drops : (fs : List F) → Keeps (stagger out fs)
  unfolding stagger join_next_with_timeout
  stagger-Drops [] s w = drain-Drops (suc (length s.tasks)) s w
  stagger-Drops (f ∷ fs) s w =
      let t : EyeballSet F E = record s { queue = fs } in
      on_stagger-Drops (stagger out fs) (stagger-Drops fs) f w.events _
        (join-After (is_some s.delay) t w)
