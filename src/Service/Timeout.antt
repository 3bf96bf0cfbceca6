-- ===== src/Service/Timeout.antt =====
-- src/service/timeout.rs and src/service/option.rs: the timeout of a request, and the layer that is
-- there or not. The timer is tokio's `Sleep`, polled like the inner future.
pub mod Elapses
pub mod Answers
use hyperdriver.Base.{
  ℕ, zero, suc, Option, none, some, Result, ok, err, Poll, ready, pending, map_err, map_ready,
}

-- `TimeoutFuture`; `error` makes the error of a timeout.
pub record TimeoutFuture (F T E : Type 0) : Type 0 where
  pub inner : F
  pub error : Unit {0} → E
  pub timeout : T

module _ {F T R E : Type 0} (poll_inner : F → Poll (Result R E) × F)
    (poll_timeout : T → Poll (Unit {0}) × T) where
  abbrev pub Polled : Type 0
  Polled = Poll (Result R E) × TimeoutFuture F T E

  on_timeout : TimeoutFuture F T E → Poll (Unit {0}) × T → Polled
  on_timeout t (ready u, timeout) = (ready (err (t.error tt)), record t { timeout = timeout })
  on_timeout t (pending, timeout) = (pending, record t { timeout = timeout })

  on_inner : TimeoutFuture F T E → Poll (Result R E) × F → Polled
  unfolding on_timeout
  on_inner t (ready response, inner) = (ready response, record t { inner = inner })
  on_inner t (pending, inner) = on_timeout (record t { inner = inner }) (poll_timeout t.timeout)

  -- `TimeoutFuture::poll`.
  pub poll : TimeoutFuture F T E → Polled
  unfolding on_inner
  poll t = on_inner t (poll_inner t.inner)

  unfoldable pub again : (TimeoutFuture F T E → Poll (Result R E)) → Polled → Poll (Result R E)
  again more (ready r, t) = ready r
  again more (pending, t) = more t

  -- A task polls the future, and after `Pending` at most `n` more times.
  unfoldable pub drive : ℕ → TimeoutFuture F T E → Poll (Result R E)
  unfolding again poll
  drive zero t = (poll t).0
  drive (suc n) t = again (drive n) (poll t)

-- `Timeout::call`; `sleep` is `tokio::time::sleep`.
unfoldable pub call :
    {S Req F T E : Type 0}
    → (S → Req → F × S)
    → (ℕ → T)
    → ℕ
    → (Unit {0} → E)
    → S
    → Req
    → TimeoutFuture F T E × S
call call_inner sleep timeout error s req =
    let (f, s') = call_inner s req in
    (record { inner = f; error = error; timeout = sleep timeout }, s')

-- `OptionServiceState`, and with futures in place of the services the state of its future.
pub data Optional (M S : Type 0) : Type 0 where
  middleware : M → Optional M S
  service : S → Optional M S

-- `OptionLayer::layer`.
pub layer : {L M S : Type 0} → (L → S → M) → Option L → S → Optional M S
layer apply none inner = service inner
layer apply (some l) inner = middleware (apply l inner)

-- `OptionService::call`.
unfoldable pub call_optional :
    {M S Req FM FS : Type 0}
    → (M → Req → FM × M)
    → (S → Req → FS × S)
    → Optional M S
    → Req
    → Optional FM FS × Optional M S
call_optional call_m call_s (middleware m) req =
    let (f, m') = call_m m req in (middleware f, middleware m')
call_optional call_m call_s (service s) req = let (f, s') = call_s s req in (service f, service s')

-- `OptionServiceFuture::poll`.
unfoldable pub poll_optional :
    {FM FS R E ME : Type 0}
    → (ME → E)
    → (FM → Poll (Result R ME) × FM)
    → (FS → Poll (Result R E) × FS)
    → Optional FM FS
    → Poll (Result R E) × Optional FM FS
poll_optional into poll_m poll_s (middleware f) =
    let (r, f') = poll_m f in (map_ready (map_err into) r, middleware f')
poll_optional into poll_m poll_s (service f) = let (r, f') = poll_s f in (r, service f')
