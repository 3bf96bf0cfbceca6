-- ===== src/Service/Timeout/Elapses.antt =====
-- When a request with a timeout is answered, and when it is given up.
use hyperdriver.Base.{ℕ, zero, suc, ◌≡◌, refl, ap, subst, Result, err, Poll, ready, pending}
use hyperdriver.Service.Timeout.{TimeoutFuture, Polled, on_timeout, on_inner, poll, again, drive}

module _ {F T R E : Type 0} (poll_inner : F → Poll (Result R E) × F)
    (poll_timeout : T → Poll (Unit {0}) × T) where
  -- From `f` and `t` to `f'` and `t'` by polls of both, each of them pending.
  pub data Pends : F → T → F → T → Type 0 where
    here : {f : F} {t : T} → Pends f t f t
    step :
        {f f' : F} {t t' : T}
        → (poll_inner f).0 ≡ pending
        → (poll_timeout t).0 ≡ pending
        → Pends (poll_inner f).1 (poll_timeout t).1 f' t'
        → Pends f t f' t'

  -- How polls of a future with a timeout end.
  pub data Ran (f : F) (t : T) (error : Unit {0} → E) : Poll (Result R E) → Type 0 where
    answered :
        {f' : F} {t' : T} {r : Result R E}
        → Pends f t f' t'
        → (poll_inner f').0 ≡ ready r
        → Ran f t error (ready r)
    too_late :
        {f' : F} {t' : T}
        → Pends f t f' t'
        → (poll_inner f').0 ≡ pending
        → (poll_timeout t').0 ≡ ready tt
        → Ran f t error (ready (err (error tt)))
    waits : {f' : F} {t' : T} → Pends f t f' t' → Ran f t error pending

  earlier :
      {f : F} {t : T} {error : Unit {0} → E} {x : Poll (Result R E)}
      → (poll_inner f).0 ≡ pending
      → (poll_timeout t).0 ≡ pending
      → Ran (poll_inner f).1 (poll_timeout t).1 error x
      → Ran f t error x
  earlier a b (answered p e) = answered (step a b p) e
  earlier a b (too_late p e k) = too_late (step a b p) e k
  earlier a b (waits p) = waits (step a b p)

  module _ (error : Unit {0} → E) (more : TimeoutFuture F T E → Poll (Result R E)) where
    abbrev Goes : Type 0
    Goes = (f : F) (t : T) → Ran f t error (more (record { inner = f; error = error; timeout = t }))

    timed :
        (f : F) (t : T) (f' : F) (p : Poll (Unit {0}) × T)
        → (poll_inner f).0 ≡ pending
        → poll_timeout t ≡ p
        → (p.0 ≡ pending
            → Ran f t error (more (record { inner = f'; error = error; timeout = p.1 })))
        → Ran f t error (
            again poll_inner poll_timeout more (
              on_timeout poll_inner poll_timeout
                (record { inner = f'; error = error; timeout = t })
                p))
    unfolding on_timeout again
    timed f t f' (ready u, t') a e k = too_late here a (ap (λ q. q.0) e)
    timed f t f' (pending, t') a e k = k refl

    rounds :
        (f : F) (t : T) (p : Poll (Result R E) × F)
        → poll_inner f ≡ p
        → Goes
        → Ran f t error (
            again poll_inner poll_timeout more (
              on_inner poll_inner poll_timeout
                (record { inner = f; error = error; timeout = t })
                p))
    unfolding on_inner again
    rounds f t (ready r, f') e go = answered here (ap (λ q. q.0) e)
    rounds f t (pending, f') e go =
        let a : (poll_inner f).0 ≡ pending = ap (λ q. q.0) e in
        timed f t f' (poll_timeout t) a refl
          (λ b. earlier a b (rw (← ap (λ q. q.1) e) (go (poll_inner f).1 (poll_timeout t).1)))

  -- The last poll is like the others, with none after it.
  pub last :
      (x : Polled poll_inner poll_timeout) → again poll_inner poll_timeout (λ t. pending) x ≡ x.0
  unfolding again
  last (ready r, t) = refl
  last (pending, t) = refl

  -- However often it is polled, a future with a timeout gives the answer of the inner one if that is
  -- ready no later than the timer, also in the same poll; it gives the error of the timeout only when
  -- the timer has run out and the inner future is pending still; and else it is pending, with both of
  -- them polled as often.
  pub drive-Ran :
      (n : ℕ) (f : F) (t : T) (error : Unit {0} → E)
      → Ran f t error
          (drive poll_inner poll_timeout n (record { inner = f; error = error; timeout = t }))
  unfolding drive poll
  drive-Ran zero f t error =
      subst (Ran f t error) (last _)
        (rounds error (λ x. pending) f t (poll_inner f) refl (λ f' t'. waits here))
  drive-Ran (suc n) f t error =
      rounds error (drive poll_inner poll_timeout n) f t (poll_inner f) refl
        (λ f' t'. drive-Ran n f' t' error)
