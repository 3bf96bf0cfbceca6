-- ===== src/Eyeballs/Sound.antt =====
-- What a success of the race comes to: the result of an attempt.
use hyperdriver.Base.{
  ℕ, zero, suc, ◌≡◌, refl, Bool, false, List, [], ◌∷◌, length, All, All-append, Result, ok, err,
}
use hyperdriver.Eyeballs.{
  HappyEyeballsError, Eyeball, World, EyeballSet, Run, returned, dropped, waiting, panicked,
  out_of_fuel, start_one, start, join_next, join_next_with_timeout, on_stagger, on_drain, exhaust,
  drain, stagger,
}
use hyperdriver.Eyeballs.Wait.{
  All-Picks, Joins, won, lost, ended, paused, stopped, waits, join-Joins,
}

module _ {F T E : Type 0} (out : F → Result T E) where
  abbrev Ends : Type 0
  Ends = Run F E (Result T (HappyEyeballsError E))

  -- The attempts that `start` moves are those of the queue.
  module _ (P : F → Type 0) where
    abbrev pub Held : EyeballSet F E → Type 0
    Held s = All P s.tasks × All P s.queue

    start_one-Held :
        (fs : List F) (s : EyeballSet F E)
        → All P s.tasks
        → s.queue ≡ fs
        → All P fs
        → Held (start_one fs s)
    unfolding start_one
    start_one-Held [] s h e k = (h, rw e tt)
    start_one-Held (f ∷ fs) s h e (k, ks) = (All-append P s.tasks (f ∷ []) h (k, tt), ks)

    pub start-Held : (n : ℕ) (s : EyeballSet F E) → Held s → Held (start n s)
    unfolding start
    start-Held zero s h = h
    start-Held (suc n) s (h, k) = start-Held n _ (start_one-Held s.queue s h refl k)

    -- A result of the race, if it is not an error, comes from an attempt with `P`.
    abbrev pub Sound : Ends → Type 0
    Sound (returned (ok t) s w) = (f : F) × P f × (out f ≡ ok t)
    Sound (returned (err x) s w) = Unit
    Sound (dropped s w) = Unit
    Sound (waiting s w) = Unit
    Sound panicked = Unit
    Sound out_of_fuel = Unit

    on_drain-Sound :
        (more : EyeballSet F E → World → Ends)
        → ((s : EyeballSet F E) (w : World) → All P s.tasks → Sound (more s w))
        → (d : Bool) (s : EyeballSet F E) (x : Run F E (Eyeball T)) → Joins out d s x
        → All P s.tasks
        → Sound (on_drain out more x)
    unfolding on_drain exhaust
    on_drain-Sound more ih d s _ (won {f} since w p e) h = (f, (All-Picks P p h).0, e)
    on_drain-Sound more ih d s _ (lost since kept w p e k) h = ih _ w (All-Picks P p h).1
    on_drain-Sound more ih d s _ (ended since w e) h = tt
    on_drain-Sound more ih d s _ (paused since w e) h = tt
    on_drain-Sound more ih d s _ (stopped since w e) h = tt
    on_drain-Sound more ih d s _ (waits since w e) h = tt

    drain-Sound :
        (fuel : ℕ) (s : EyeballSet F E) (w : World) → All P s.tasks → Sound (drain out fuel s w)
    unfolding drain join_next
    drain-Sound zero s w h = tt
    drain-Sound (suc fuel) s w h =
        on_drain-Sound (drain out fuel) (drain-Sound fuel) false s _ (join-Joins out false s w) h

    on_stagger-Sound :
        (more : EyeballSet F E → World → Ends)
        → ((s : EyeballSet F E) (w : World) → All P s.tasks → Sound (more s w))
        → (d : Bool) (s : EyeballSet F E) (f : F) (x : Run F E (Eyeball T)) → Joins out d s x
        → P f
        → All P s.tasks
        → Sound (on_stagger out more f x)
    unfolding on_stagger
    on_stagger-Sound more ih d s f _ (won {f = g} since w p e) q h = (g, (All-Picks P p h).0, e)
    on_stagger-Sound more ih d s f _ (lost since kept w p e k) q h =
        ih _ w (All-append P _ (f ∷ []) (All-Picks P p h).1 (q, tt))
    on_stagger-Sound more ih d s f _ (ended since w e) q h =
        ih _ w (All-append P s.tasks (f ∷ []) h (q, tt))
    on_stagger-Sound more ih d s f _ (paused since w e) q h =
        ih _ w (All-append P s.tasks (f ∷ []) h (q, tt))
    on_stagger-Sound more ih d s f _ (stopped since w e) q h = tt
    on_stagger-Sound more ih d s f _ (waits since w e) q h = tt

    pub stagger-Sound :
        (fs : List F) (s : EyeballSet F E) (w : World)
        → All P fs
        → All P s.tasks
        → Sound (stagger out fs s w)
    unfolding stagger join_next_with_timeout
    stagger-Sound [] s w q h = drain-Sound (suc (length s.tasks)) s w h
    stagger-Sound (f ∷ fs) s w (q, qs) h =
        on_stagger-Sound (stagger out fs) (λ s' w' h'. stagger-Sound fs s' w' qs h') _
          (record s { queue = fs }) f _ (join-Joins out _ (record s { queue = fs }) w) q h
