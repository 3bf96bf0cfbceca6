-- ===== src/Eyeballs/Fails.antt =====
-- When the race ends in an error: all attempts have failed, the error is one of theirs, and the
-- loops end without the panic and within their bound.
use hyperdriver.Base.{
  ℕ, zero, suc, ◌<◌, ◌≡◌, refl, ◌≢◌, ◌⊎◌, Bool, true, false, List, [], ◌∷◌, ◌++◌, Option, none,
  some, length, All, All-append, Result, ok, err, is_some, arith, unwrap_or, inl, inr, sym, ◌∙◌,
}
use hyperdriver.Eyeballs.{
  HappyEyeballsError, no_progress, error, Eyeball, World, EyeballSet, Run, returned, dropped,
  waiting, panicked, out_of_fuel, join_next, join_next_with_timeout, on_stagger, on_drain, exhaust,
  drain, stagger,
}
use hyperdriver.Eyeballs.Wait.{
  Picks, Picks-length, All-Picks, Picks-All, Joins, won, lost, ended, paused, stopped, waits,
  join-Joins,
}

module _ {F T E : Type 0} (out : F → Result T E) (P : F → Type 0) where
  abbrev pub Failed : F → Type 0
  Failed f = (e : E) × (out f ≡ err e)

  -- The error is the output of an attempt with `P`.
  abbrev pub Caused : HappyEyeballsError E → Type 0
  Caused x = (f : F) × (e : E) × P f × (out f ≡ err e) × (x ≡ error e)

  abbrev pub Ends : Type 0
  Ends = Run F E (Result T (HappyEyeballsError E))

  -- The error that is kept, if any, is one of the attempts'.
  abbrev pub Kept : Option (HappyEyeballsError E) → Type 0
  Kept none = Unit
  Kept (some x) = Caused x

  pub record Inv (s : EyeballSet F E) (fs : List F) : Type 0 where
    pub running : All P s.tasks
    pub queued : All P fs
    pub kept : Kept s.error

  -- What an end of the race says of the set `s` and the attempts `fs` that are not started yet.
  abbrev pub Fails : EyeballSet F E → List F → Ends → Type 0
  Fails s fs (returned (ok t) _ _) = Unit
  Fails s fs (returned (err x) _ _) =
      All Failed s.tasks
      × All Failed fs
      × ((s.error ≡ none) × (s.tasks ≡ []) × (fs ≡ []) × (x ≡ no_progress) ⊎ Caused x)
  Fails s fs (dropped _ _) = is_some s.timeout ≡ true
  Fails s fs (waiting _ _) = Unit
  Fails s fs panicked = ⊥
  Fails s fs out_of_fuel = ⊥

  Fails-exhaust :
      (s s' : EyeballSet F E) (w : World) (o : Option (HappyEyeballsError E))
      → s.tasks ≡ []
      → s.error ≡ o
      → Kept o
      → Fails s [] (returned (err (unwrap_or no_progress o)) s' w)
  Fails-exhaust s s' w none none_left e k = (rw none_left tt, tt, inl (e, none_left, refl, refl))
  Fails-exhaust s s' w (some x) none_left e k = (rw none_left tt, tt, inr k)

  -- The attempt that was picked has failed, and the rest of the race says what it says of the set
  -- without it, whose error is set.
  Fails-lost :
      (s t : EyeballSet F E) (f : F) (e : E) (rest fs gs : List F) (x : Ends)
      → Picks f rest s.tasks
      → out f ≡ err e
      → t.error ≢ none
      → t.timeout ≡ s.timeout
      → (All Failed t.tasks → All Failed gs → All Failed rest × All Failed fs)
      → Fails t gs x
      → Fails s fs x
  Fails-lost s t f e rest fs gs (returned (ok y) _ _) p q n l a h = tt
  Fails-lost s t f e rest fs gs (returned (err y) _ _) p q n l a (h, k, inl (o, _, _, _)) =
      absurd (n o)
  Fails-lost s t f e rest fs gs (returned (err y) _ _) p q n l a (h, k, inr c) =
      let (hs, ks) = a h k in (Picks-All Failed p (e, q) hs, ks, inr c)
  Fails-lost s t f e rest fs gs (dropped _ _) p q n l a h = rw (← l) h
  Fails-lost s t f e rest fs gs (waiting _ _) p q n l a h = tt
  Fails-lost s t f e rest fs gs panicked p q n l a h = h
  Fails-lost s t f e rest fs gs out_of_fuel p q n l a h = h

  abbrev KeptBy : EyeballSet F E → E → Option (HappyEyeballsError E) → Type 0
  KeptBy s e kept = (s.error ≡ none) × (kept ≡ some (error e)) ⊎ (s.error ≢ none) × (kept ≡ s.error)

  KeptBy-some :
      (s : EyeballSet F E) (e : E) (kept : Option (HappyEyeballsError E))
      → KeptBy s e kept
      → kept ≢ none
  KeptBy-some s e kept (inl (o, k)) h = cc
  KeptBy-some s e kept (inr (o, k)) h = o (sym k ∙ h)

  KeptBy-Kept :
      (s : EyeballSet F E) (f : F) (e : E) (kept : Option (HappyEyeballsError E))
      → P f
      → out f ≡ err e
      → Kept s.error
      → KeptBy s e kept
      → Kept kept
  KeptBy-Kept s f e kept p q k (inl (o, h)) = rw h (f, e, p, q, refl)
  KeptBy-Kept s f e kept p q k (inr (o, h)) = rw h k

  All-split : (Q : F → Type 0) (xs : List F) (f : F) → All Q (xs ++ f ∷ []) → All Q xs × Q f
  All-split Q [] f (h, _) = (tt, h)
  All-split Q (x ∷ xs) f (h, hs) = let (hs', k) = All-split Q xs f hs in ((h, hs'), k)

  abbrev Goes : List F → (EyeballSet F E → World → Ends) → Type 0
  Goes fs more = (s : EyeballSet F E) (w : World) → Inv s fs → Fails s fs (more s w)

  on_drain-Fails :
      (fuel : ℕ) (more : EyeballSet F E → World → Ends)
      → ((s : EyeballSet F E) (w : World)
          → Inv s []
          → length s.tasks < fuel
          → Fails s [] (more s w))
      → (s : EyeballSet F E) (x : Run F E (Eyeball T)) → Joins out false s x
      → Inv s []
      → length s.tasks < suc fuel
      → Fails s [] (on_drain out more x)
  unfolding on_drain exhaust
  on_drain-Fails fuel more ih s _ (won since w p e) i h = tt
  on_drain-Fails fuel more ih s _ (lost {f} {e} {rest} since kept w p q k) i h =
      let t : EyeballSet F E = record s { tasks = rest; started = since; error = kept } in
      let (pf, running) = All-Picks P p i.running in
      Fails-lost s t f e rest [] [] (more t w) p q (KeptBy-some s e kept k) refl (λ a b. (a, b))
        (ih t w
          (record { running = running; queued = tt; kept = KeptBy-Kept s f e kept pf q i.kept k })
          (omega (arith, Picks-length p)))
  on_drain-Fails fuel more ih s _ (ended since w e) i h =
      Fails-exhaust s (record s { started = since; error = none }) w s.error e refl i.kept
  on_drain-Fails fuel more ih s _ (paused since w e) i h = cc
  on_drain-Fails fuel more ih s _ (stopped since w e) i h = e
  on_drain-Fails fuel more ih s _ (waits since w e) i h = tt

  drain-Fails :
      (fuel : ℕ) (s : EyeballSet F E) (w : World)
      → Inv s []
      → length s.tasks < fuel
      → Fails s [] (drain out fuel s w)
  unfolding drain join_next
  drain-Fails zero s w i h = absurd (omega arith)
  drain-Fails (suc fuel) s w i h =
      on_drain-Fails fuel (drain out fuel) (drain-Fails fuel) s _ (join-Joins out false s w) i h

  concat-ne-nil : (xs : List F) (f : F) → xs ++ f ∷ [] ≢ []
  concat-ne-nil [] f e = cc
  concat-ne-nil (x ∷ xs) f e = cc

  -- An attempt that is started while no other one fails goes to the running ones.
  Fails-started :
      (s : EyeballSet F E) (f : F) (fs : List F) (since : Option ℕ) (x : Ends)
      → Fails (record s { tasks = s.tasks ++ f ∷ []; started = since }) fs x
      → Fails s (f ∷ fs) x
  Fails-started s f fs since (returned (ok y) _ _) h = tt
  Fails-started s f fs since (returned (err y) _ _) (h, k, inl (_, e, _, _)) =
      absurd (concat-ne-nil s.tasks f e)
  Fails-started s f fs since (returned (err y) _ _) (h, k, inr c) =
      let (hs, hf) = All-split Failed s.tasks f h in (hs, (hf, k), inr c)
  Fails-started s f fs since (dropped _ _) h = h
  Fails-started s f fs since (waiting _ _) h = tt
  Fails-started s f fs since panicked h = h
  Fails-started s f fs since out_of_fuel h = h

  started-Inv :
      (s : EyeballSet F E) (f : F) (fs : List F) (since : Option ℕ)
      → Inv s (f ∷ fs)
      → Inv (record s { tasks = s.tasks ++ f ∷ []; started = since }) fs
  started-Inv s f fs since i = record {
    running = All-append P s.tasks (f ∷ []) i.running (i.queued.0, tt);
    queued = i.queued.1;
    kept = i.kept;
  }

  on_stagger-Fails :
      (fs : List F) (more : EyeballSet F E → World → Ends)
      → Goes fs more
      → (d : Bool) (s : EyeballSet F E) (f : F) (x : Run F E (Eyeball T)) → Joins out d s x
      → Inv s (f ∷ fs)
      → Fails s (f ∷ fs) (on_stagger out more f x)
  unfolding on_stagger
  on_stagger-Fails fs more ih d s f _ (won since w p e) i = tt
  on_stagger-Fails fs more ih d s f _ (lost {f = g} {e} {rest} since kept w p q k) i =
      let t : EyeballSet F E = record s { tasks = rest ++ f ∷ []; started = since; error = kept } in
      let (pg, running) = All-Picks P p i.running in
      Fails-lost s t g e rest (f ∷ fs) fs (more t w) p q (KeptBy-some s e kept k) refl
        (λ a b. let (hs, hf) = All-split Failed rest f a in (hs, (hf, b)))
        (ih t w (record {
          running = All-append P rest (f ∷ []) running (i.queued.0, tt);
          queued = i.queued.1;
          kept = KeptBy-Kept s g e kept pg q i.kept k;
        }))
  on_stagger-Fails fs more ih d s f _ (ended since w e) i =
      Fails-started s f fs since _ (ih _ w (started-Inv s f fs since i))
  on_stagger-Fails fs more ih d s f _ (paused since w e) i =
      Fails-started s f fs since _ (ih _ w (started-Inv s f fs since i))
  on_stagger-Fails fs more ih d s f _ (stopped since w e) i = e
  on_stagger-Fails fs more ih d s f _ (waits since w e) i = tt

  pub stagger-Fails :
      (fs : List F) (s : EyeballSet F E) (w : World) → Inv s fs → Fails s fs (stagger out fs s w)
  unfolding stagger join_next_with_timeout
  stagger-Fails [] s w i = drain-Fails (suc (length s.tasks)) s w i (omega arith)
  stagger-Fails (f ∷ fs) s w i =
      let t : EyeballSet F E = record s { queue = fs } in
      on_stagger-Fails fs (stagger out fs) (stagger-Fails fs) (is_some s.delay) t f _
        (join-Joins out (is_some s.delay) t w)
        (record { running = i.running; queued = i.queued; kept = i.kept })
