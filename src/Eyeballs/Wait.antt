-- ===== src/Eyeballs/Wait.antt =====
-- What a wait for the running attempts can come to, as a relation that proofs take apart.
use hyperdriver.Base.{
  ℕ, zero, suc, ◌≡◌, refl, ◌≢◌, Bool, true, false, List, [], ◌∷◌, Option, none, some, length, All,
  Result, ok, err, is_some, arith, Option-cases, inl, inr, ap, ◌⊎◌,
}
use hyperdriver.Eyeballs.{
  HappyEyeballsError, error, Eyeball, got, failed, timed_out, exhausted, Event, completed,
  delay_elapsed, timeout_elapsed, World, EyeballSet, Run, returned, dropped, waiting, Next, item,
  empty, late, cut, still, remove_at, wait, next, keep_error, on_item, on_next, mark, join,
}

-- `f` stands somewhere in the list, and `rest` is the list without it.
pub data Picks {F : Type 0} (f : F) : List F → List F → Type 0 where
  here : {rest : List F} → Picks f rest (f ∷ rest)
  there : {g : F} {rest fs : List F} → Picks f rest fs → Picks f (g ∷ rest) (g ∷ fs)

pub Picks-length :
    {F : Type 0} {f : F} {rest fs : List F} → Picks f rest fs → length fs ≡ suc (length rest)
Picks-length here = refl
Picks-length (there p) = ap suc (Picks-length p)

module _ {F : Type 0} (P : F → Type 0) where
  pub All-Picks : {f : F} {rest fs : List F} → Picks f rest fs → All P fs → P f × All P rest
  All-Picks here (h, hs) = (h, hs)
  All-Picks (there p) (h, hs) = let (here', there') = All-Picks p hs in (here', (h, there'))

  pub Picks-All : {f : F} {rest fs : List F} → Picks f rest fs → P f → All P rest → All P fs
  Picks-All here h hs = (h, hs)
  Picks-All (there p) h (k, hs) = (k, Picks-All p h hs)

pub remove_at-Picks :
    {F : Type 0} (i : ℕ) (fs : List F) (f : F) (rest : List F)
    → remove_at i fs ≡ some (f, rest)
    → Picks f rest fs
unfolding remove_at
remove_at-Picks i [] f rest e = cc
remove_at-Picks zero (g ∷ fs) f rest e =
    let same : g ≡ f = ground arith in
    let others : fs ≡ rest = ground arith in rw (same, others) here
remove_at-Picks (suc i) (g ∷ fs) f rest e = elim (Option-cases (remove_at i fs)) [
  | inl missing ↦ absurd (ground arith)
  | inr (p, found) ↦
      let same : p.0 ≡ f = ground arith in
      let others : g ∷ p.1 ≡ rest = ground arith in
      rw (← same, ← others) (there (remove_at-Picks i fs p.0 p.1 found))
]

-- What `next` can come to.
pub data NextOf {F : Type 0} (delayed limited : Bool) (tasks : List F) : Next F → Type 0 where
  picked :
      {f : F} {rest : List F} (w : World)
      → Picks f rest tasks
      → NextOf delayed limited tasks (item f rest w)
  none_left : (w : World) → tasks ≡ [] → NextOf delayed limited tasks (empty w)
  timer : (w : World) → delayed ≡ true → NextOf delayed limited tasks (late w)
  limit : (w : World) → limited ≡ true → NextOf delayed limited tasks (cut w)
  over : (w : World) → tasks ≢ [] → NextOf delayed limited tasks (still w)

module _ {F : Type 0} (tasks : List F) (busy : tasks ≢ []) where
  completed-NextOf :
      (delayed limited : Bool) (i at : ℕ) (events : List (ℕ × Event)) (found : Option (F × List F))
      (later : Next F)
      → remove_at i tasks ≡ found
      → NextOf delayed limited tasks later
      → NextOf delayed limited tasks (elim found [
        | none ↦ later
        | some (f, rest) ↦ item f rest (record { now = at; events = events })
      ])
  completed-NextOf delayed limited i at events none later e n = n
  completed-NextOf delayed limited i at events (some (f, rest)) later e n =
      picked _ (remove_at-Picks i tasks f rest e)

  wait-NextOf :
      (delayed limited : Bool) (now : ℕ) (events : List (ℕ × Event))
      → NextOf delayed limited tasks (wait delayed limited tasks now events)
  unfolding wait
  wait-NextOf delayed limited now [] = over _ busy
  wait-NextOf delayed limited now ((at, completed i) ∷ events) =
      completed-NextOf delayed limited i at events (remove_at i tasks) _ refl
        (wait-NextOf delayed limited at events)
  wait-NextOf true limited now ((at, delay_elapsed) ∷ events) = timer _ refl
  wait-NextOf false limited now ((at, delay_elapsed) ∷ events) = wait-NextOf false limited at events
  wait-NextOf delayed true now ((at, timeout_elapsed) ∷ events) = limit _ refl
  wait-NextOf delayed false now ((at, timeout_elapsed) ∷ events) =
      wait-NextOf delayed false at events

next-NextOf :
    {F : Type 0} (delayed limited : Bool) (tasks : List F) (w : World)
    → NextOf delayed limited tasks (next delayed limited tasks w)
unfolding next
next-NextOf delayed limited [] w = none_left w refl
next-NextOf delayed limited (f ∷ fs) w =
    wait-NextOf (f ∷ fs) (λ e. cc) delayed limited w.now w.events

-- What `join_next` can come to on the set `s`, under a timer of its own if `delayed`.
pub data Joins {F T E : Type 0} (out : F → Result T E) (delayed : Bool) (s : EyeballSet F E)
    : Run F E (Eyeball T) → Type 0 where
  won :
      {f : F} {t : T} {rest : List F} (since : Option ℕ) (w : World)
      → Picks f rest s.tasks
      → out f ≡ ok t
      → Joins out delayed s (returned (got t) (record s { tasks = rest; started = since }) w)
  lost :
      {f : F} {e : E} {rest : List F} (since : Option ℕ) (kept : Option (HappyEyeballsError E))
      (w : World)
      → Picks f rest s.tasks
      → out f ≡ err e
      → (s.error ≡ none) × (kept ≡ some (error e)) ⊎ (s.error ≢ none) × (kept ≡ s.error)
      → Joins out delayed s
          (returned failed (record s { tasks = rest; started = since; error = kept }) w)
  ended :
      (since : Option ℕ) (w : World)
      → s.tasks ≡ []
      → Joins out delayed s (returned exhausted (record s { started = since }) w)
  paused :
      (since : Option ℕ) (w : World)
      → delayed ≡ true
      → Joins out delayed s (returned timed_out (record s { started = since }) w)
  stopped :
      (since : Option ℕ) (w : World)
      → is_some s.timeout ≡ true
      → Joins out delayed s (dropped (record s { started = since }) w)
  waits :
      (since : Option ℕ) (w : World)
      → s.tasks ≢ []
      → Joins out delayed s (waiting (record s { started = since }) w)

module _ {F T E : Type 0} (out : F → Result T E) where
  failed-Joins :
      (delayed : Bool) (s : EyeballSet F E) (since : Option ℕ) (f : F) (rest : List F) (w : World)
      (x : E) (o : Option (HappyEyeballsError E))
      → Picks f rest s.tasks
      → out f ≡ err x
      → s.error ≡ o
      → Joins out delayed s
          (returned failed (keep_error out (record s { tasks = rest; started = since }) x o) w)
  unfolding keep_error
  failed-Joins delayed s since f rest w x none p e o =
      lost since (some (error x)) w p e (inl (o, refl))
  failed-Joins delayed s since f rest w x (some y) p e o =
      lost since s.error w p e (inr (λ h. cc, refl))

  item-Joins :
      (delayed : Bool) (s : EyeballSet F E) (since : Option ℕ) (f : F) (rest : List F) (w : World)
      (r : Result T E)
      → Picks f rest s.tasks
      → out f ≡ r
      → Joins out delayed s (on_item out (record s { tasks = rest; started = since }) w r)
  unfolding on_item
  item-Joins delayed s since f rest w (ok t) p e = won since w p e
  item-Joins delayed s since f rest w (err x) p e =
      failed-Joins delayed s since f rest w x s.error p e refl

  on_next-Joins :
      (delayed : Bool) (s : EyeballSet F E) (since : Option ℕ) (n : Next F)
      → NextOf delayed (is_some s.timeout) s.tasks n
      → Joins out delayed s (on_next out (record s { started = since }) n)
  unfolding on_next
  on_next-Joins delayed s since _ (picked {f} {rest} w p) =
      item-Joins delayed s since f rest w (out f) p refl
  on_next-Joins delayed s since _ (none_left w e) = ended since w e
  on_next-Joins delayed s since _ (timer w e) = paused since w e
  on_next-Joins delayed s since _ (limit w e) = stopped since w e
  on_next-Joins delayed s since _ (over w e) = waits since w e

  pub join-Joins :
      (delayed : Bool) (s : EyeballSet F E) (w : World) → Joins out delayed s (join out delayed s w)
  unfolding join mark
  join-Joins delayed s w =
      on_next-Joins delayed s _ _ (next-NextOf delayed (is_some s.timeout) s.tasks w)
