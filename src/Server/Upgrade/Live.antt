-- ===== src/Server/Upgrade/Live.antt =====
-- A served connection never panics, its handler is given every byte, and a shutdown stops detection.
use hyperdriver.Base.{
  ℕ, ◌≡◌, refl, ◌≢◌, List, Option, none, some, ok, err, ready, pending, value, panic, subst, ◌∙◌,
}
use hyperdriver.Io.{Reader, interrupted, from_kind}
use hyperdriver.Rewind.{Rewind}
use hyperdriver.Rewind.Content.{rewound}
use hyperdriver.Server.ReadVersion
use hyperdriver.Server.ReadVersion.{ReadVersion, PollResult, new, cancel}
use hyperdriver.Server.ReadVersion.Content.{
  IsOpen, Polled, bytes_of, poll-Polled, poll-cancel, new-IsOpen,
}
use hyperdriver.Server.Upgrade.{
  Hyper, ConnectionState, read_version, http1, http2, Answer, serve_connection, graceful_shutdown,
  serve, on_version, rounds, poll, protocol,
}
use hyperdriver.Server.Upgrade.Steps.{serve_round}

module _ (r : Reader) {S : Type 0} (B : Type 0) (h : Hyper r.State S) where
  abbrev State : Type 0
  State = ConnectionState r B h

  -- While the protocol is not known, the detection is open and the service is there.
  abbrev pub IsLive : State → Type 0
  IsLive (read_version rv s) = IsOpen r rv × (svc : S) × (s ≡ some svc)
  IsLive (http1 conn) = Unit
  IsLive (http2 conn) = Unit

  -- A poll that does not panic, and leaves a live connection if it is pending.
  abbrev Goes : Answer r B h × State → Type 0
  Goes p = (p.0 ≢ panic) × (p.0 ≡ value pending → IsLive p.1)

  conn-Goes :
      (v : ReadVersion.HttpProtocol) (w : Rewind r.State) (s : S)
      → Goes (rounds r B h 1 (serve r B h v w s))
  unfolding rounds serve
  conn-Goes ReadVersion.http1 w s = (λ e. cc, λ e. tt)
  conn-Goes ReadVersion.http2 w s = (λ e. cc, λ e. tt)

  on_version-Goes :
      (total : List ℕ) (s : Option S) (svc : S) (p : PollResult r.State × ReadVersion r.State)
      → s ≡ some svc
      → Polled r total p
      → Goes (on_version r B h (rounds r B h 1) s p)
  unfolding on_version
  on_version-Goes total s svc (value pending, rv) e (_, o) = (λ x. cc, λ x. (o, svc, e))
  on_version-Goes total s svc (value (ready (err x)), rv) e k = (λ y. cc, λ y. cc)
  on_version-Goes total none svc (value (ready (ok (v, w))), rv) e k = cc
  on_version-Goes total (some s) svc (value (ready (ok (v, w))), rv) e k = conn-Goes v w s
  on_version-Goes total s svc (panic, rv) e k = absurd k

  poll-Goes : (st : State) → IsLive st → Goes (poll r B h st)
  unfolding poll
  poll-Goes (read_version rv s) (o, svc, e) =
      on_version-Goes (bytes_of r rv) s svc (ReadVersion.poll r.poll_read rv) e (poll-Polled r rv o)
  poll-Goes (http1 conn) live = (λ e. cc, λ e. tt)
  poll-Goes (http2 conn) live = (λ e. cc, λ e. tt)

  shutdown-IsLive : (st : State) → IsLive st → IsLive (graceful_shutdown r B h st)
  unfolding graceful_shutdown cancel
  shutdown-IsLive (read_version rv s) (o, svc, e) =
      (record { reader = o.reader; holds = o.holds; counted = o.counted; fits = o.fits }, svc, e)
  shutdown-IsLive (http1 conn) live = tt
  shutdown-IsLive (http2 conn) live = tt

  -- What the server does with a connection: it polls it while it is pending, and may ask at any time
  -- for a graceful shutdown.
  pub data Reach (first : State) : State → Type 0 where
    start : Reach first first
    polled :
        {st : State}
        → Reach first st
        → (poll r B h st).0 ≡ value pending
        → Reach first (poll r B h st).1
    shut : {st : State} → Reach first st → Reach first (graceful_shutdown r B h st)

  Reach-IsLive : {first st : State} → IsLive first → Reach first st → IsLive st
  Reach-IsLive live start = live
  Reach-IsLive live (polled {st} before waits) = (poll-Goes st (Reach-IsLive live before)).1 waits
  Reach-IsLive live (shut {st} before) = shutdown-IsLive st (Reach-IsLive live before)

  -- A served connection never panics: not in any poll, after any number of pending polls and
  -- graceful shutdowns in any order. In particular the service and the reader are there when the
  -- protocol is known, and one poll needs no more than two rounds of its loop.
  pub Reach-ne-panic :
      (io : r.State) (s : S) {st : State}
      → Reach (serve_connection r B h io s) st
      → (poll r B h st).0 ≢ panic
  unfolding serve_connection
  Reach-ne-panic io s {st} before =
      (poll-Goes st (Reach-IsLive (new-IsOpen r io, s, refl) before)).0

  -- A shutdown that is asked for while the protocol is not known ends the connection at the next
  -- poll, with the error `Interrupted`, and reads nothing more.
  pub shutdown_before_version :
      (rv : ReadVersion r.State) (s : Option S)
      → let st = graceful_shutdown r B h (read_version rv s) in
        poll r B h st ≡ (value (ready (err (protocol (from_kind interrupted)))), st)
  unfolding poll graceful_shutdown
  shutdown_before_version rv s = rw (poll-cancel r rv, on_version)

  handed :
      (total : List ℕ) (s : S) (p : PollResult r.State × ReadVersion r.State)
      → Polled r total p
      → (v : ReadVersion.HttpProtocol) (w : Rewind r.State) (rv' : ReadVersion r.State)
      → p ≡ (value (ready (ok (v, w))), rv')
      → (rewound r w ≡ total)
        × (on_version r B h (rounds r B h 1) (some s) p ≡ rounds r B h 1 (serve r B h v w s))
  unfolding on_version
  handed total s p k v w rv' e =
      let k' : Polled r total (value (ready (ok (v, w))), rv') = subst (Polled r total) e k in
      (k', rw e)

  -- When the detection decides, the same poll goes on with the connection for that protocol, and
  -- hands it a reader whose content is every byte that the client sent from the start.
  poll_hands_over :
      (rv : ReadVersion r.State) (s : S) (v : ReadVersion.HttpProtocol) (w : Rewind r.State)
      (rv' : ReadVersion r.State)
      → IsOpen r rv
      → ReadVersion.poll r.poll_read rv ≡ (value (ready (ok (v, w))), rv')
      → (rewound r w ≡ bytes_of r rv)
        × (poll r B h (read_version rv (some s)) ≡ poll r B h (serve r B h v w s))
  unfolding poll
  poll_hands_over rv s v w rv' o e =
      let (kept, next) = handed (bytes_of r rv) s _ (poll-Polled r rv o) v w rv' e in
      (kept, next ∙ serve_round r B h v w s)
