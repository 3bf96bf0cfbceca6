-- ===== src/Eyeballs/Schedule.antt =====
-- What the waits of the race take from a schedule of events: the events that say that the attempt
-- which runs longest has completed are counted.
use hyperdriver.Base.{
  ℕ, zero, suc, ◌≤◌, ◌≡◌, refl, Bool, true, false, List, [], ◌∷◌, Option, none, some, length, arith,
}
use hyperdriver.Eyeballs.{
  Event, completed, delay_elapsed, timeout_elapsed, Next, item, empty, late, cut, still, remove_at,
  wait,
}
use hyperdriver.Eyeballs.Wait.{Picks-length, remove_at-Picks}

-- How many events say that the attempt that runs longest has completed.
abbrev pub firsts : List (ℕ × Event) → ℕ
firsts [] = 0
firsts ((at, completed zero) ∷ events) = suc (firsts events)
firsts ((at, completed (suc i)) ∷ events) = firsts events
firsts ((at, delay_elapsed) ∷ events) = firsts events
firsts ((at, timeout_elapsed) ∷ events) = firsts events

module _ {F : Type 0} (g : F) (gs : List F) where
  -- What a wait for the attempts `g ∷ gs` leaves of `n` such events.
  abbrev pub Leaves : ℕ → Next F → Type 0
  Leaves n (item f rest w) = (n ≤ suc (firsts w.events)) × (length rest ≡ length gs)
  Leaves n (empty w) = ⊥
  Leaves n (late w) = n ≤ firsts w.events
  Leaves n (cut w) = Unit
  Leaves n (still w) = n ≡ 0

  picked_length :
      (i : ℕ) (f : F) (rest : List F)
      → remove_at i (g ∷ gs) ≡ some (f, rest)
      → length rest ≡ length gs
  picked_length i f rest e = omega (arith, Picks-length (remove_at-Picks i (g ∷ gs) f rest e))

  first-removed :
      (events : List (ℕ × Event)) (at : ℕ) (later : Next F) (n : ℕ) (o : Option (F × List F))
      → remove_at zero (g ∷ gs) ≡ o
      → n ≡ suc (firsts events)
      → Leaves n (elim o [
        | none ↦ later
        | some (f, rest) ↦ item f rest (record { now = at; events = events })
      ])
  unfolding remove_at
  first-removed events at later n none e k = cc
  first-removed events at later n (some (f, rest)) e k = (omega arith, picked_length zero f rest e)

  other-removed :
      (i : ℕ) (events : List (ℕ × Event)) (at : ℕ) (later : Next F) (n : ℕ)
      (o : Option (F × List F))
      → remove_at i (g ∷ gs) ≡ o
      → n ≡ firsts events
      → Leaves n later
      → Leaves n (elim o [
        | none ↦ later
        | some (f, rest) ↦ item f rest (record { now = at; events = events })
      ])
  other-removed i events at later n none e k l = l
  other-removed i events at later n (some (f, rest)) e k l = (omega arith, picked_length i f rest e)

  pub wait-Leaves :
      (delayed limited : Bool) (now : ℕ) (events : List (ℕ × Event))
      → Leaves (firsts events) (wait delayed limited (g ∷ gs) now events)
  unfolding wait
  wait-Leaves delayed limited now [] = refl
  wait-Leaves delayed limited now ((at, completed zero) ∷ events) =
      first-removed events at (wait delayed limited (g ∷ gs) at events) _ (remove_at zero (g ∷ gs))
        refl refl
  wait-Leaves delayed limited now ((at, completed (suc i)) ∷ events) =
      other-removed (suc i) events at (wait delayed limited (g ∷ gs) at events) _
        (remove_at (suc i) (g ∷ gs)) refl refl (wait-Leaves delayed limited at events)
  wait-Leaves true limited now ((at, delay_elapsed) ∷ events) = omega arith
  wait-Leaves false limited now ((at, delay_elapsed) ∷ events) = wait-Leaves false limited at events
  wait-Leaves delayed true now ((at, timeout_elapsed) ∷ events) = tt
  wait-Leaves delayed false now ((at, timeout_elapsed) ∷ events) =
      wait-Leaves delayed false at events
