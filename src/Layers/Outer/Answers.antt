-- ===== src/Layers/Outer/Answers.antt =====
-- The answers of a client that was built with a timeout, or without one.
use hyperdriver.Base.{
  ℕ, zero, suc, ◌≡◌, ◌≢◌, String, refl, sym, ◌∙◌, none, some, Result, ok, err, Poll, ready, pending,
  map_err, map_ready,
}
use hyperdriver.Http.{Http, Request}
use hyperdriver.Service.Timeout
use hyperdriver.Service.Timeout.{TimeoutFuture, Optional, middleware, service, poll_optional}
use hyperdriver.Service.Timeout.Answers.{Fires, drive-ne-pending}
use hyperdriver.Client.Builder.{ClientService}
use hyperdriver.Layers.{Service}
use hyperdriver.Layers.Outer.{redirects, client_service, poll_redirects, poll_client}

next : {F R : Type 0} → (F → Poll R) → Poll R × F → Poll R
next more (ready r, f) = ready r
next more (pending, f) = more f

-- A task polls a future, and after `Pending` at most `n` more times.
unfoldable pub run : {F R : Type 0} → (F → Poll R × F) → ℕ → F → Poll R
unfolding next
run poll zero f = (poll f).0
run poll (suc n) f = next (run poll n) (poll f)

module _ {FM FS R E : Type 0} (poll_m : FM → Poll (Result R E) × FM)
    (poll_s : FS → Poll (Result R E) × FS) where
  abbrev both : Optional FM FS → Poll (Result R E) × Optional FM FS
  both = poll_optional (λ e. e) poll_m poll_s

  same_error : (p : Poll (Result R E)) → map_ready (map_err (λ e. e)) p ≡ p
  same_error (ready (ok r)) = refl
  same_error (ready (err e)) = refl
  same_error pending = refl

  next-middleware :
      (n : ℕ)
      → ((f : FM) → run both n (middleware f) ≡ run poll_m n f)
      → (p : Poll (Result R E) × FM)
      → next (run both n) (map_ready (map_err (λ e. e)) p.0, middleware p.1) ≡ next (run poll_m n) p
  unfolding next
  next-middleware n more (ready r, f) = rw (same_error (ready r)) refl
  next-middleware n more (pending, f) = more f

  pub run-middleware : (n : ℕ) (f : FM) → run both n (middleware f) ≡ run poll_m n f
  unfolding run poll_optional
  run-middleware zero f = same_error (poll_m f).0
  run-middleware (suc n) f = next-middleware n (run-middleware n) (poll_m f)

  next-service :
      (n : ℕ)
      → ((f : FS) → run both n (service f) ≡ run poll_s n f)
      → (p : Poll (Result R E) × FS) → next (run both n) (p.0, service p.1) ≡ next (run poll_s n) p
  unfolding next
  next-service n more (ready r, f) = refl
  next-service n more (pending, f) = more f

  pub run-service : (n : ℕ) (f : FS) → run both n (service f) ≡ run poll_s n f
  unfolding run poll_optional
  run-service zero f = refl
  run-service (suc n) f = next-service n (run-service n) (poll_s f)

module _ {F T R E : Type 0} (poll_inner : F → Poll (Result R E) × F)
    (poll_timer : T → Poll (Unit {0}) × T) where
  next-again :
      (n : ℕ)
      → ((t : TimeoutFuture F T E)
          → run (Timeout.poll poll_inner poll_timer) n t ≡ Timeout.drive poll_inner poll_timer n t)
      → (p : Timeout.Polled poll_inner poll_timer)
      → next (run (Timeout.poll poll_inner poll_timer) n) p
        ≡ Timeout.again poll_inner poll_timer (Timeout.drive poll_inner poll_timer n) p
  unfolding next Timeout.again
  next-again n more (ready r, t) = refl
  next-again n more (pending, t) = more t

  run-drive :
      (n : ℕ) (t : TimeoutFuture F T E)
      → run (Timeout.poll poll_inner poll_timer) n t ≡ Timeout.drive poll_inner poll_timer n t
  unfolding run Timeout.drive
  run-drive zero t = refl
  run-drive (suc n) t = next-again n (run-drive n) (Timeout.poll poll_inner poll_timer t)

module _ {F FR Timer A R E : Type 0} (sleep : ℕ → Timer) (timed_out : Unit {0} → E) (from : A → R)
    (poll_pool : F → Poll (Result A E) × F) (poll_redirect : FR → Poll (Result R E) × FR)
    (poll_timer : Timer → Poll (Unit {0}) × Timer) where
  -- The future of the services without the timeout, and polling it.
  abbrev pub poll_inner : Optional FR F → Poll (Result R E) × Optional FR F
  poll_inner = poll_redirects from poll_pool poll_redirect

  abbrev pub poll_outer :
      Optional (TimeoutFuture (Optional FR F) Timer E) (Optional FR F)
      → Poll (Result R E) × Optional (TimeoutFuture (Optional FR F) Timer E) (Optional FR F)
  poll_outer = poll_client from poll_pool poll_redirect poll_timer

  abbrev pub timed : ℕ → Optional FR F → TimeoutFuture (Optional FR F) Timer E
  timed d f = record { inner = f; error = timed_out; timeout = sleep d }

  run-timed :
      (n d : ℕ) (f : Optional FR F)
      → run poll_outer n (middleware (timed d f))
        ≡ Timeout.drive poll_inner poll_timer n (timed d f)
  unfolding poll_client
  run-timed n d f =
      run-middleware (Timeout.poll poll_inner poll_timer) poll_inner n (timed d f)
      ∙ run-drive poll_inner poll_timer n (timed d f)

  run-untimed : (n : ℕ) (f : Optional FR F) → run poll_outer n (service f) ≡ run poll_inner n f
  unfolding poll_client
  run-untimed n f = run-service (Timeout.poll poll_inner poll_timer) poll_inner n f

  module _ (h : Http) (crate_name : String) {T P Redirect Layer Config Pool B : Type 0}
      (follow : Redirect → Service (Request h B) F E → Service (Request h B) FR E)
      (pool : Service (Request h B) F E) where
    -- A client that was built without a timeout answers a request as its redirects, User-Agent and pool
    -- do, at every number of polls. One that was built with a timeout answers as the future of that
    -- timeout does over what they give for the request, so that one timer stands for all redirects and
    -- is started by the call; and if the timer runs out in one of the first `n + 1` polls the request is
    -- over by then, whatever the redirects and the pool do.
    pub client_service-answers :
        (s : ClientService T P Redirect Layer Config Pool) (d n : ℕ)
        (c : (redirects h crate_name follow s pool).State) (req : Request h B)
        → let f = ((redirects h crate_name follow s pool).call c req).0 in
          let plain =
            client_service h crate_name follow sleep timed_out (record s { timeout = none }) pool in
          let limited =
            client_service h crate_name follow sleep timed_out
              (record s { timeout = some d })
              pool in
          (run poll_outer n (plain.call c req).0 ≡ run poll_inner n f)
          × (run poll_outer n (limited.call c req).0
              ≡ Timeout.drive poll_inner poll_timer n (timed d f))
          × (Fires poll_inner poll_timer n (sleep d)
              → run poll_outer n (limited.call c req).0 ≢ pending)
    unfolding Timeout.call
    client_service-answers s d n c req =
        let f = ((redirects h crate_name follow s pool).call c req).0 in
        (
          run-untimed n f,
          run-timed n d f,
          λ fires waits.
              drive-ne-pending poll_inner poll_timer n f (sleep d) timed_out fires
                (sym (run-timed n d f) ∙ waits),
        )
