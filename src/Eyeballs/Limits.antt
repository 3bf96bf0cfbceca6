-- ===== src/Eyeballs/Limits.antt =====
-- How many attempts run at a time, and that the race ends when the attempts do.
use hyperdriver.Base.{
  ℕ, zero, suc, ◌+◌, ◌≤◌, max, ◌≡◌, refl, Bool, false, List, [], ◌∷◌, ◌++◌, none, some, length,
  length-append, append-nil, Result, is_some, unwrap_or, arith, sym, ◌∙◌, ap, append_assoc, subst,
}
use hyperdriver.Eyeballs.{
  HappyEyeballsError, Eyeball, World, EyeballSet, Run, returned, dropped, waiting, panicked,
  out_of_fuel, start_one, start, begin, join_next, join_next_with_timeout, on_stagger, on_drain,
  exhaust, drain, stagger, process_all, on_finish, finish,
}
use hyperdriver.Eyeballs.Wait.{
  Picks-length, Joins, won, lost, ended, paused, stopped, waits, join-Joins,
}

module _ {F T E : Type 0} (out : F → Result T E) where
  abbrev Ends : Type 0
  Ends = Run F E (Result T (HappyEyeballsError E))

  module _ (m : ℕ) where
    -- Wherever the race waits or is dropped, at most `m` attempts run.
    abbrev pub Bounded : Ends → Type 0
    Bounded (returned r s w) = Unit
    Bounded (dropped s w) = length s.tasks ≤ m
    Bounded (waiting s w) = length s.tasks ≤ m
    Bounded panicked = Unit
    Bounded out_of_fuel = Unit

    Fits : EyeballSet F E → Type 0
    Fits s = (s.delay ≡ none) × (length s.tasks ≤ m)

    on_drain-Bounded :
        (more : EyeballSet F E → World → Ends)
        → ((s : EyeballSet F E) (w : World) → length s.tasks ≤ m → Bounded (more s w))
        → (d : Bool) (s : EyeballSet F E) (x : Run F E (Eyeball T)) → Joins out d s x
        → length s.tasks ≤ m
        → Bounded (on_drain out more x)
    unfolding on_drain exhaust
    on_drain-Bounded more ih d s _ (won since w p e) h = tt
    on_drain-Bounded more ih d s _ (lost {rest} since kept w p e k) h =
        ih _ w (omega (arith, Picks-length p))
    on_drain-Bounded more ih d s _ (ended since w e) h = tt
    on_drain-Bounded more ih d s _ (paused since w e) h = tt
    on_drain-Bounded more ih d s _ (stopped since w e) h = h
    on_drain-Bounded more ih d s _ (waits since w e) h = h

    drain-Bounded :
        (fuel : ℕ) (s : EyeballSet F E) (w : World)
        → length s.tasks ≤ m
        → Bounded (drain out fuel s w)
    unfolding drain join_next
    drain-Bounded zero s w h = tt
    drain-Bounded (suc fuel) s w h =
        on_drain-Bounded (drain out fuel) (drain-Bounded fuel) false s _ (join-Joins out false s w)
          h

    on_stagger-Bounded :
        (more : EyeballSet F E → World → Ends)
        → ((s : EyeballSet F E) (w : World) → Fits s → Bounded (more s w))
        → (delayed : Bool) (s : EyeballSet F E) (f : F) (x : Run F E (Eyeball T))
        → Joins out delayed s x
        → delayed ≡ false
        → 1 ≤ m
        → Fits s
        → Bounded (on_stagger out more f x)
    unfolding on_stagger Fits
    on_stagger-Bounded more ih delayed s f _ (won since w p e) z o (d, h) = tt
    on_stagger-Bounded more ih delayed s f _ (lost {rest} since kept w p e k) z o (d, h) =
        ih _ w (d, omega (arith, Picks-length p, length-append rest (f ∷ [])))
    on_stagger-Bounded more ih delayed s f _ (ended since w e) z o (d, h) =
        ih _ w (d, omega (arith, ap length e, length-append s.tasks (f ∷ [])))
    on_stagger-Bounded more ih delayed s f _ (paused since w e) z o (d, h) = cc
    on_stagger-Bounded more ih delayed s f _ (stopped since w e) z o (d, h) = h
    on_stagger-Bounded more ih delayed s f _ (waits since w e) z o (d, h) = h

    stagger-Bounded :
        (fs : List F) (s : EyeballSet F E) (w : World)
        → 1 ≤ m
        → Fits s
        → Bounded (stagger out fs s w)
    unfolding stagger join_next_with_timeout Fits
    stagger-Bounded [] s w o (d, h) = drain-Bounded (suc (length s.tasks)) s w h
    stagger-Bounded (f ∷ fs) s w o (d, h) =
        let t : EyeballSet F E = record s { queue = fs } in
        on_stagger-Bounded (stagger out fs) (λ s' w' k. stagger-Bounded fs s' w' o k)
          (is_some s.delay) t f _ (join-Joins out (is_some s.delay) t w) (ap is_some d) o (d, h)

    on_finish-Bounded : (x : Ends) → Bounded x → Bounded (on_finish out x)
    unfolding on_finish
    on_finish-Bounded (returned r s w) h = tt
    on_finish-Bounded (dropped s w) h = tt
    on_finish-Bounded (waiting s w) h = h
    on_finish-Bounded panicked h = tt
    on_finish-Bounded out_of_fuel h = tt

  module _ where
    start_one-length :
        (fs : List F) (s : EyeballSet F E) → length (start_one fs s).tasks ≤ length s.tasks + 1
    unfolding start_one
    start_one-length [] s = omega arith
    start_one-length (f ∷ fs) s = omega (arith, length-append s.tasks (f ∷ []))

    start_one-delay : (fs : List F) (s : EyeballSet F E) → (start_one fs s).delay ≡ s.delay
    unfolding start_one
    start_one-delay [] s = refl
    start_one-delay (f ∷ fs) s = refl

    start-length :
        (n : ℕ) (s : EyeballSet F E)
        → (length (start n s).tasks ≤ length s.tasks + n) × ((start n s).delay ≡ s.delay)
    unfolding start
    start-length zero s = (omega arith, refl)
    start-length (suc n) s =
        let (sum, same) = start-length n (start_one s.queue s) in
        (omega (arith, start_one-length s.queue s), same ∙ start_one-delay s.queue s)

    -- With no delay between the attempts and an initial concurrency of `n`, wherever the race waits
    -- at most `n` attempts run, and one if `n` is 0: another one starts only when one has failed.
    pub finish-Bounded :
        (s : EyeballSet F E) (w : World) (n : ℕ)
        → s.tasks ≡ []
        → s.delay ≡ none
        → s.initial_concurrency ≡ some n
        → Bounded (max n 1) (finish out s w)
    unfolding finish process_all begin Fits
    finish-Bounded s w n e d c =
        let k = unwrap_or (length s.queue) s.initial_concurrency in
        let k' : k ≡ n = ap (unwrap_or (length s.queue)) c in
        let (sum, same) = start-length k s in
        on_finish-Bounded (max n 1) _ (
          stagger-Bounded (max n 1) (start k s).queue (start k s) w (omega arith)
            (same ∙ d, omega (arith, ap length e)))

    start_all :
        (fs : List F) (s : EyeballSet F E)
        → s.queue ≡ fs
        → ((start (length fs) s).queue ≡ []) × ((start (length fs) s).tasks ≡ s.tasks ++ fs)
    unfolding start start_one
    start_all [] s e = (e, sym (append-nil s.tasks))
    start_all (f ∷ fs) s e =
        let t : EyeballSet F E = record s { queue = fs; tasks = s.tasks ++ f ∷ [] } in
        let (none_left, running) = start_all fs t refl in
        subst
          (λ q.
            ((start (length fs) (start_one q s)).queue ≡ [])
            × ((start (length fs) (start_one q s)).tasks ≡ s.tasks ++ f ∷ fs))
          (sym e) (none_left, running ∙ append_assoc s.tasks (f ∷ []) fs)

    -- Without an initial concurrency all attempts run from the start, in the order in which they
    -- were put into the set and whatever its delay is: none is left to be started later.
    begin-all :
        (s : EyeballSet F E)
        → s.initial_concurrency ≡ none
        → ((begin out s).queue ≡ []) × ((begin out s).tasks ≡ s.tasks ++ s.queue)
    unfolding begin
    begin-all s c =
        let k : unwrap_or (length s.queue) s.initial_concurrency ≡ length s.queue =
          ap (unwrap_or (length s.queue)) c in
        rw k (start_all s.queue s refl)
