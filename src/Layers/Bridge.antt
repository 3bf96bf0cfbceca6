-- ===== src/Layers/Bridge.antt =====
-- src/bridge/service.rs: the bridge from tower's services to hyper's. tower's `oneshot` is an interface.
use hyperdriver.Base.{
  ℕ, zero, suc, ◌≡◌, refl, Result, ok, err, Poll, ready, pending, map_ok, map_ready,
}
use hyperdriver.Layers.{Service}

-- tower's `Oneshot` on a service, up to the future of its call, and what it is documented to do: it
-- polls the service until that is ready, and then calls it; an error of `poll_ready` is its own.
pub record Oneshot {Req F E : Type 0} (s : Service Req F E) : Type 1 where
  pub Future : Type 0
  pub oneshot : s.State → Req → Future
  pub poll : Future → Poll (Result F E) × Future
  pub waits :
      (c : s.State) (req : Req)
      → (s.poll_ready c).0 ≡ pending
      → poll (oneshot c req) ≡ (pending, oneshot (s.poll_ready c).1 req)
  pub fails :
      (c : s.State) (req : Req) (e : E)
      → (s.poll_ready c).0 ≡ ready (err e)
      → (poll (oneshot c req)).0 ≡ ready (err e)
  pub calls :
      (c : s.State) (req : Req)
      → (s.poll_ready c).0 ≡ ready (ok tt)
      → (poll (oneshot c req)).0 ≡ ready (ok (s.call (s.poll_ready c).1 req).0)

-- `TowerHyperFuture`.
pub record TowerHyperFuture (F : Type 0) : Type 0 where
  pub future : F

module _ {Req F E : Type 0} (s : Service Req F E) where
  unfoldable pub on_ready :
      (s.State → Poll (Result s.State E))
      → Poll (Result (Unit {0}) E) × s.State
      → Poll (Result s.State E)
  on_ready more (ready (ok u), c) = ready (ok c)
  on_ready more (ready (err e), c) = ready (err e)
  on_ready more (pending, c) = more c

  -- The service as it is when its `poll_ready` is ready, in at most `n + 1` polls.
  unfoldable pub ready_after : ℕ → s.State → Poll (Result s.State E)
  unfolding on_ready
  ready_after zero c = on_ready (λ c'. pending) (s.poll_ready c)
  ready_after (suc n) c = on_ready (ready_after n) (s.poll_ready c)

  module _ (o : Oneshot s) where
    -- `TowerHyperService::call`: each request is given to a clone of the service.
    unfoldable pub bridge_call : s.State → Req → TowerHyperFuture o.Future
    bridge_call c req = record { future = o.oneshot (s.clone c) req }

    -- `TowerHyperFuture::poll`.
    unfoldable pub bridge_poll :
        TowerHyperFuture o.Future → Poll (Result F E) × TowerHyperFuture o.Future
    bridge_poll f = let (r, future) = o.poll f.future in (r, record { future = future })

    again :
        (TowerHyperFuture o.Future → Poll (Result F E))
        → Poll (Result F E) × TowerHyperFuture o.Future
        → Poll (Result F E)
    again more (ready r, f) = ready r
    again more (pending, f) = more f

    -- hyper polls the future, and after `Pending` at most `n` more times.
    pub drive : ℕ → TowerHyperFuture o.Future → Poll (Result F E)
    unfolding bridge_poll again
    drive zero f = (bridge_poll f).0
    drive (suc n) f = again (drive n) (bridge_poll f)

    abbrev called : Req → Poll (Result s.State E) → Poll (Result F E)
    called req p = map_ready (map_ok (λ c. (s.call c req).0)) p

    step :
        (more : TowerHyperFuture o.Future → Poll (Result F E))
        (waited : s.State → Poll (Result s.State E)) (c : s.State) (req : Req)
        (p : Poll (Result (Unit {0}) E))
        → (s.poll_ready c).0 ≡ p
        → ((c' : s.State) → more (record { future = o.oneshot c' req }) ≡ called req (waited c'))
        → again more (bridge_poll (record { future = o.oneshot c req }))
          ≡ called req (on_ready waited (p, (s.poll_ready c).1))
    unfolding again bridge_poll on_ready
    step more waited c req (ready (ok u)) e next = rw (o.calls c req e) refl
    step more waited c req (ready (err x)) e next = rw (o.fails c req x e) refl
    step more waited c req pending e next = rw (o.waits c req e) (next (s.poll_ready c).1)

    last :
        (c : s.State) (req : Req) (p : Poll (Result (Unit {0}) E))
        → (s.poll_ready c).0 ≡ p
        → (bridge_poll (record { future = o.oneshot c req })).0
          ≡ called req (on_ready (λ c'. pending) (p, (s.poll_ready c).1))
    unfolding bridge_poll on_ready
    last c req (ready (ok u)) e = o.calls c req e
    last c req (ready (err x)) e = o.fails c req x e
    last c req pending e = rw (o.waits c req e) refl

    drive-ready_after :
        (n : ℕ) (c : s.State) (req : Req)
        → drive n (record { future = o.oneshot c req }) ≡ called req (ready_after n c)
    unfolding drive ready_after
    drive-ready_after zero c req = last c req _ refl
    drive-ready_after (suc n) c req =
        step (drive n) (ready_after n) c req _ refl (λ c'. drive-ready_after n c' req)

    -- Through the bridge a request is answered by a clone of the service, as that is when it is ready.
    pub bridge_call-ready_after :
        (n : ℕ) (c : s.State) (req : Req)
        → drive n (bridge_call c req)
          ≡ map_ready (map_ok (λ c'. (s.call c' req).0)) (ready_after n (s.clone c))
    unfolding bridge_call
    bridge_call-ready_after n c req = drive-ready_after n (s.clone c) req
