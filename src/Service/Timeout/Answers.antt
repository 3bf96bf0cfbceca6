-- ===== src/Service/Timeout/Answers.antt =====
-- A request with a timeout is answered, whatever the inner service does.
use hyperdriver.Base.{
  ℕ, zero, suc, ◌≡◌, ◌≢◌, refl, sym, ◌∙◌, ◌⊎◌, inl, inr, Result, Poll, ready, pending,
}
use hyperdriver.Service.Timeout.{TimeoutFuture, on_timeout, on_inner, poll, again, drive}
use hyperdriver.Service.Timeout.Elapses.{last}

ready-ne-pending : {A : Type 0} {x : A} → ◌≢◌ {A = Poll A} (ready x) pending
ready-ne-pending e = cc

module _ {F T R E : Type 0} (poll_inner : F → Poll (Result R E) × F)
    (poll_timeout : T → Poll (Unit {0}) × T) where
  -- The timer runs out in one of the first `n + 1` polls.
  abbrev pub Fires : ℕ → T → Type 0
  Fires zero t = (poll_timeout t).0 ≡ ready tt
  Fires (suc n) t = ((poll_timeout t).0 ≡ ready tt) ⊎ Fires n (poll_timeout t).1

  module _ (error : Unit {0} → E) (more : TimeoutFuture F T E → Poll (Result R E)) where
    timed-ne-pending :
        (f : F) (t : T) (q : Poll (Unit {0}) × T)
        → (q.0 ≡ pending → more (record { inner = f; error = error; timeout = q.1 }) ≢ pending)
        → again poll_inner poll_timeout more (
            on_timeout poll_inner poll_timeout (record { inner = f; error = error; timeout = t }) q)
          ≢ pending
    unfolding on_timeout again
    timed-ne-pending f t (ready u, t') k = ready-ne-pending
    timed-ne-pending f t (pending, t') k = k refl

    round-ne-pending :
        (t : T) (f : F) (p : Poll (Result R E) × F)
        → ((poll_timeout t).0 ≡ pending
            → more (record { inner = p.1; error = error; timeout = (poll_timeout t).1 }) ≢ pending)
        → again poll_inner poll_timeout more
            (on_inner poll_inner poll_timeout (record { inner = f; error = error; timeout = t }) p)
          ≢ pending
    unfolding on_inner again
    round-ne-pending t f (ready r, f') k = ready-ne-pending
    round-ne-pending t f (pending, f') k = timed-ne-pending f' t (poll_timeout t) k

  -- If the timer runs out in one of the first `n + 1` polls, a request with a timeout is over after so
  -- many polls at the latest, also if the inner future is pending for ever.
  pub drive-ne-pending :
      (n : ℕ) (f : F) (t : T) (error : Unit {0} → E)
      → Fires n t
      → drive poll_inner poll_timeout n (record { inner = f; error = error; timeout = t }) ≢ pending
  unfolding drive poll
  drive-ne-pending zero f t error fires = λ waits.
      round-ne-pending error (λ x. pending) t f (poll_inner f)
        (λ e. absurd (ready-ne-pending (sym fires ∙ e))) (last poll_inner poll_timeout _ ∙ waits)
  drive-ne-pending (suc n) f t error (inl now) =
      round-ne-pending error (drive poll_inner poll_timeout n) t f (poll_inner f)
        (λ e. absurd (ready-ne-pending (sym now ∙ e)))
  drive-ne-pending (suc n) f t error (inr later) =
      round-ne-pending error (drive poll_inner poll_timeout n) t f (poll_inner f)
        (λ e. drive-ne-pending n (poll_inner f).1 (poll_timeout t).1 error later)
