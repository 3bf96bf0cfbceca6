-- ===== src/Eyeballs/Finish.antt =====
-- The whole call `finish`: it starts with the attempts of the set, none is lost on the way, and it
-- ends in an error only if all have failed or its timer has run out.
use hyperdriver.Base.{
  ℕ, zero, suc, ◌≡◌, refl, ◌⊎◌, true, List, [], ◌∷◌, ◌++◌, none, length, All, All-append,
  append_assoc, Result, ok, err, is_some, unwrap_or, inl, inr, subst, sym, ◌∙◌, ap,
}
use hyperdriver.Eyeballs.{
  HappyEyeballsError, timeout, no_progress, World, EyeballSet, Run, returned, dropped, waiting,
  panicked, out_of_fuel, start_one, start, begin, process_all, on_finish, finish,
}
use hyperdriver.Eyeballs.Sound.{start-Held, Sound, stagger-Sound}
use hyperdriver.Eyeballs.Timer.{TimerOut, Drops, stagger-Drops}
use hyperdriver.Eyeballs.Fails.{Failed, Caused, Fails, stagger-Fails}

module _ {F E : Type 0} where
  -- What `start` keeps: the attempts and their order, the timers, and the error.
  pub record Starts (s t : EyeballSet F E) : Type 0 where
    pub same : t.tasks ++ t.queue ≡ s.tasks ++ s.queue
    pub limit : t.timeout ≡ s.timeout
    pub error : t.error ≡ s.error

  start_one-Starts : (fs : List F) (s : EyeballSet F E) → s.queue ≡ fs → Starts s (start_one fs s)
  unfolding start_one
  start_one-Starts [] s e = record { same = refl; limit = refl; error = refl }
  start_one-Starts (f ∷ fs) s e = record {
    same = append_assoc s.tasks (f ∷ []) fs ∙ ap (◌++◌ s.tasks) (sym e);
    limit = refl;
    error = refl;
  }

  pub start-Starts : (n : ℕ) (s : EyeballSet F E) → Starts s (start n s)
  unfolding start
  start-Starts zero s = record { same = refl; limit = refl; error = refl }
  start-Starts (suc n) s =
      let one = start_one-Starts s.queue s refl in
      let more = start-Starts n (start_one s.queue s) in
      record {
        same = more.same ∙ one.same;
        limit = more.limit ∙ one.limit;
        error = more.error ∙ one.error;
      }

module _ {F T E : Type 0} (out : F → Result T E) (P : F → Type 0) where
  -- How `finish` may end on the set `s`.
  abbrev pub Finished : EyeballSet F E → World → Run F E (Result T (HappyEyeballsError E)) → Type 0
  Finished s w (returned (ok t) _ _) = (f : F) × P f × (out f ≡ ok t)
  Finished s w (returned (err x) _ w') =
      ((d : ℕ) × (x ≡ timeout d) × (is_some s.timeout ≡ true) × TimerOut w.events w')
      ⊎ (All (Failed out P) (s.tasks ++ s.queue)
          × ((s.tasks ++ s.queue ≡ []) × (x ≡ no_progress) ⊎ Caused out P x))
  Finished s w (dropped _ _) = ⊥
  Finished s w (waiting _ _) = Unit
  Finished s w panicked = ⊥
  Finished s w out_of_fuel = ⊥

  on_finish-Finished :
      (s t : EyeballSet F E) (w : World) (x : Run F E (Result T (HappyEyeballsError E)))
      → Starts s t
      → Drops out w.events x
      → Sound out P x
      → Fails out P t t.queue x
      → Finished s w (on_finish out x)
  unfolding on_finish
  on_finish-Finished s t w (returned (ok y) _ _) a d g h = g
  on_finish-Finished s t w (returned (err y) _ _) a d g (h, k, inl (_, e, q, n)) = inr (
    subst (All (Failed out P)) a.same (All-append (Failed out P) t.tasks t.queue h k),
    inl (sym a.same ∙ ap (λ xs. xs ++ t.queue) e ∙ q, n),
  )
  on_finish-Finished s t w (returned (err y) _ _) a d g (h, k, inr c) =
      inr (subst (All (Failed out P)) a.same (All-append (Failed out P) t.tasks t.queue h k), inr c)
  on_finish-Finished s t w (dropped _ _) a d g h = inl (_, refl, rw (← a.limit) h, d)
  on_finish-Finished s t w (waiting _ _) a d g h = tt
  on_finish-Finished s t w panicked a d g h = h
  on_finish-Finished s t w out_of_fuel a d g h = h

  -- `finish` on a set with no error yet never panics and ends within the bound of its loops. A success
  -- is the output of one of the attempts. It returns an error in two cases only. Either it is a
  -- timeout, the timer of the call was set, and the last event that the call has taken in is that this
  -- timer has run out; or every attempt of the set has failed, and the error is the output of one of
  -- them, or `NoProgress` for the empty set.
  pub finish-Finished :
      (s : EyeballSet F E) (w : World)
      → All P s.tasks
      → All P s.queue
      → s.error ≡ none
      → Finished s w (finish out s w)
  unfolding finish process_all begin
  finish-Finished s w h k e =
      let n = unwrap_or (length s.queue) s.initial_concurrency in
      let a = start-Starts n s in
      let (running, queued) = start-Held out P n s (h, k) in
      on_finish-Finished s (start n s) w _ a (stagger-Drops out (start n s).queue (start n s) w)
        (stagger-Sound out P (start n s).queue (start n s) w queued running)
        (stagger-Fails out P (start n s).queue (start n s) w
          (record { running = running; queued = queued; kept = rw (a.error ∙ e) tt }))
