-- ===== src/Eyeballs/Returns.antt =====
-- That the race returns: enough events of the executor are enough for it.
use hyperdriver.Base.{
  ℕ, zero, suc, ◌+◌, ◌≤◌, ◌≡◌, refl, sym, ap, ◌∙◌, Bool, false, List, [], ◌∷◌, ◌++◌, Option, none,
  some, length, length-append, All, Result, ok, err, is_some, unwrap_or, arith,
}
use hyperdriver.Eyeballs.{
  HappyEyeballsError, Eyeball, got, failed, timed_out, exhausted, World, EyeballSet, Run, returned,
  dropped, waiting, panicked, out_of_fuel, Next, item, empty, late, cut, still, next, start, begin,
  keep_error, on_item, on_next, mark, join, join_next, join_next_with_timeout, on_stagger, exhaust,
  on_drain, drain, stagger, process_all, on_finish, finish,
}
use hyperdriver.Eyeballs.Finish.{start-Starts, Finished, finish-Finished}
use hyperdriver.Eyeballs.Schedule.{firsts, Leaves, wait-Leaves}

module _ {F T E : Type 0} (out : F → Result T E) where
  abbrev Ends : Type 0
  Ends = Run F E (Result T (HappyEyeballsError E))

  -- What a wait of the set `s` leaves of `n` such events.
  abbrev Joined : EyeballSet F E → ℕ → Run F E (Eyeball T) → Type 0
  Joined s n (returned (got t) s' w) = Unit
  Joined s n (returned failed s' w) =
      (n ≤ suc (firsts w.events)) × (length s.tasks ≡ suc (length s'.tasks))
  Joined s n (returned timed_out s' w) = (n ≤ firsts w.events) × (length s.tasks ≡ length s'.tasks)
  Joined s n (returned exhausted s' w) = (n ≤ firsts w.events) × (length s.tasks ≡ length s'.tasks)
  Joined s n (dropped s' w) = Unit
  Joined s n (waiting s' w) = (n ≡ 0) × (1 ≤ length s.tasks)
  Joined s n panicked = ⊥
  Joined s n out_of_fuel = ⊥

  kept_length :
      (t : EyeballSet F E) (e : E) (o : Option (HappyEyeballsError E))
      → length t.tasks ≡ length (keep_error out t e o).tasks
  unfolding keep_error
  kept_length t e none = refl
  kept_length t e (some x) = refl

  item-Joined :
      (s : EyeballSet F E) (t : EyeballSet F E) (n : ℕ) (w : World) (r : Result T E)
      → n ≤ suc (firsts w.events)
      → length s.tasks ≡ suc (length t.tasks)
      → Joined s n (on_item out t w r)
  unfolding on_item
  item-Joined s t n w (ok x) a b = tt
  item-Joined s t n w (err e) a b = (a, b ∙ ap suc (kept_length t e t.error))

  left-Joined :
      (g : F) (gs : List F) (s t : EyeballSet F E) (n : ℕ) (x : Next F)
      → length s.tasks ≡ suc (length gs)
      → length t.tasks ≡ length s.tasks
      → Leaves g gs n x
      → Joined s n (on_next out t x)
  unfolding on_next
  left-Joined g gs s t n (item f rest w) a b (c, d) =
      item-Joined s (record t { tasks = rest }) n w (out f) c (a ∙ ap suc (sym d))
  left-Joined g gs s t n (empty w) a b c = absurd c
  left-Joined g gs s t n (late w) a b c = (c, sym b)
  left-Joined g gs s t n (cut w) a b c = tt
  left-Joined g gs s t n (still w) a b c = (c, omega arith)

  next-Joined :
      (tasks : List F) (delayed limited : Bool) (w : World) (s t : EyeballSet F E)
      → s.tasks ≡ tasks
      → length t.tasks ≡ length s.tasks
      → Joined s (firsts w.events) (on_next out t (next delayed limited tasks w))
  unfolding next on_next
  next-Joined [] delayed limited w s t e k = (omega arith, sym k)
  next-Joined (g ∷ gs) delayed limited w s t e k =
      left-Joined g gs s t (firsts w.events) _ (ap length e) k
        (wait-Leaves g gs delayed limited w.now w.events)

  join-Joined :
      (delayed : Bool) (s : EyeballSet F E) (w : World)
      → Joined s (firsts w.events) (join out delayed s w)
  unfolding join mark
  join-Joined delayed s w = next-Joined s.tasks delayed (is_some s.timeout) w s _ refl refl

  -- The race has not come to a wait that the schedule does not end.
  abbrev pub Returns : Ends → Type 0
  Returns (returned r s w) = Unit
  Returns (dropped s w) = Unit
  Returns (waiting s w) = ⊥
  Returns panicked = Unit
  Returns out_of_fuel = Unit

  on_drain-Returns :
      (more : EyeballSet F E → World → Ends)
      → ((s : EyeballSet F E) (w : World) → length s.tasks ≤ firsts w.events → Returns (more s w))
      → (s : EyeballSet F E) (n : ℕ) (x : Run F E (Eyeball T)) → Joined s n x
      → length s.tasks ≤ n
      → Returns (on_drain out more x)
  unfolding on_drain exhaust
  on_drain-Returns more ih s n (returned (got t) s' w) j h = tt
  on_drain-Returns more ih s n (returned failed s' w) j h = ih s' w (omega (arith, j.0, j.1))
  on_drain-Returns more ih s n (returned timed_out s' w) j h = tt
  on_drain-Returns more ih s n (returned exhausted s' w) j h = tt
  on_drain-Returns more ih s n (dropped s' w) j h = tt
  on_drain-Returns more ih s n (waiting s' w) (z, b) h = absurd (omega arith)
  on_drain-Returns more ih s n panicked j h = absurd j
  on_drain-Returns more ih s n out_of_fuel j h = absurd j

  drain-Returns :
      (fuel : ℕ) (s : EyeballSet F E) (w : World)
      → length s.tasks ≤ firsts w.events
      → Returns (drain out fuel s w)
  unfolding drain join_next
  drain-Returns zero s w h = tt
  drain-Returns (suc fuel) s w h =
      on_drain-Returns (drain out fuel) (drain-Returns fuel) s (firsts w.events) _
        (join-Joined false s w) h

  on_stagger-Returns :
      (fs : List F) (more : EyeballSet F E → World → Ends)
      → ((s : EyeballSet F E) (w : World)
          → length s.tasks + length fs ≤ firsts w.events
          → Returns (more s w))
      → (f : F) (s : EyeballSet F E) (n : ℕ) (x : Run F E (Eyeball T)) → Joined s n x
      → length s.tasks + suc (length fs) ≤ n
      → Returns (on_stagger out more f x)
  unfolding on_stagger
  on_stagger-Returns fs more ih f s n (returned (got t) s' w) j h = tt
  on_stagger-Returns fs more ih f s n (returned failed s' w) j h =
      ih _ w (omega (arith, j.0, j.1, length-append s'.tasks (f ∷ [])))
  on_stagger-Returns fs more ih f s n (returned timed_out s' w) j h =
      ih _ w (omega (arith, j.0, j.1, length-append s'.tasks (f ∷ [])))
  on_stagger-Returns fs more ih f s n (returned exhausted s' w) j h =
      ih _ w (omega (arith, j.0, j.1, length-append s'.tasks (f ∷ [])))
  on_stagger-Returns fs more ih f s n (dropped s' w) j h = tt
  on_stagger-Returns fs more ih f s n (waiting s' w) (z, b) h = absurd (omega arith)
  on_stagger-Returns fs more ih f s n panicked j h = absurd j
  on_stagger-Returns fs more ih f s n out_of_fuel j h = absurd j

  stagger-Returns :
      (fs : List F) (s : EyeballSet F E) (w : World)
      → length s.tasks + length fs ≤ firsts w.events
      → Returns (stagger out fs s w)
  unfolding stagger join_next_with_timeout
  stagger-Returns [] s w h = drain-Returns (suc (length s.tasks)) s w (omega arith)
  stagger-Returns (f ∷ fs) s w h =
      let t : EyeballSet F E = record s { queue = fs } in
      on_stagger-Returns fs (stagger out fs) (stagger-Returns fs) f t (firsts w.events) _
        (join-Joined (is_some s.delay) t w) h

  on_finish-Returns : (x : Ends) → Returns x → Returns (on_finish out x)
  unfolding on_finish
  on_finish-Returns (returned r s w) h = tt
  on_finish-Returns (dropped s w) h = tt
  on_finish-Returns (waiting s w) h = h
  on_finish-Returns panicked h = tt
  on_finish-Returns out_of_fuel h = tt

  finish-Returns :
      (s : EyeballSet F E) (w : World)
      → length (s.tasks ++ s.queue) ≤ firsts w.events
      → Returns (finish out s w)
  unfolding finish process_all begin
  finish-Returns s w h =
      let n = unwrap_or (length s.queue) s.initial_concurrency in
      let started = start-Starts n s in
      on_finish-Returns _ (
        stagger-Returns (start n s).queue (start n s) w (
          omega (arith, ap length started.same, length-append (start n s).tasks (start n s).queue)))

  abbrev Any : F → Type 0
  Any f = Unit

  any_attempt : (fs : List F) → All Any fs
  any_attempt [] = tt
  any_attempt (f ∷ fs) = (tt, any_attempt fs)

  given_back :
      (s : EyeballSet F E) (w : World) (x : Ends)
      → Finished out Any s w x
      → Returns x
      → (r : Result T (HappyEyeballsError E)) × (s' : EyeballSet F E) × (w' : World) × (x
          ≡ returned r s' w')
  given_back s w (returned r s' w') a b = (r, s', w', refl)
  given_back s w (dropped s' w') a b = absurd a
  given_back s w (waiting s' w') a b = absurd b
  given_back s w panicked a b = absurd a
  given_back s w out_of_fuel a b = absurd a

  -- `finish` returns a result: if the set has no error yet and the schedule has, for each attempt,
  -- one event saying that the attempt which runs longest is complete, the call returns, whatever
  -- other events come before, between and after these.
  pub finish-returned :
      (s : EyeballSet F E) (w : World)
      → s.error ≡ none
      → length (s.tasks ++ s.queue) ≤ firsts w.events
      → (r : Result T (HappyEyeballsError E)) × (s' : EyeballSet F E) × (w' : World) × (finish out s
            w
          ≡ returned r s' w')
  finish-returned s w e h =
      given_back s w (finish out s w)
        (finish-Finished out Any s w (any_attempt s.tasks) (any_attempt s.queue) e)
        (finish-Returns s w h)
