-- ===== src/Server/Connecting/Runs.antt =====
-- A task's sequence of polls and shutdowns, on the connections of a server.
pub mod Late
pub mod Built
use hyperdriver.Base.{
  ◌≡◌, refl, ap, ◌∙◌, List, [], ◌∷◌, map, Result, ok, err, Poll, ready, pending, Outcome, value,
  panic, map_err, map_ready,
}
use hyperdriver.Io.{Reader}
use hyperdriver.Server.Upgrade
use hyperdriver.Server.Upgrade.{
  Hyper, ConnectionError, hyper, ConnectionState, http1, http2, serve_connection,
}
use hyperdriver.Server.Connecting.{
  Connection, Http1Connection, Http2Connection, http1_connection, http2_connection,
  TowerHyperService, IncomingRequestService, upgradable, Connecting, passed_on, connecting,
}

pub data Event : Type 0 where
  poll_it shut_down : Event

abbrev pub Answer : Type 0 → Type 0
Answer E = Outcome (Poll (Result (Unit {0}) E))

module _ {C E : Type 0} (c : Connection C E) where
  -- The answers to the polls of a sequence, and the connection after it.
  abbrev pub run : C → List Event → List (Answer E) × C
  run s [] = ([], s)
  run s (poll_it ∷ events) =
      let (a, s') = c.poll s in let (rest, s'') = run s' events in (a ∷ rest, s'')
  run s (shut_down ∷ events) = run (c.graceful_shutdown s) events

-- `view s` is polled and shut down as `s` is, its answers being those of `s` by `f`.
pub record Simulates {C C' E E' : Type 0} (c : Connection C E) (c' : Connection C' E')
    (f : Answer E → Answer E') (view : C → C') : Type 0 where
  pub polls : (s : C) → c'.poll (view s) ≡ (f (c.poll s).0, view (c.poll s).1)
  pub shuts : (s : C) → c'.graceful_shutdown (view s) ≡ view (c.graceful_shutdown s)

pub Simulates-run :
    {C C' E E' : Type 0} (c : Connection C E) (c' : Connection C' E') (f : Answer E → Answer E')
    (view : C → C')
    → Simulates c c' f view
    → (s : C) (events : List Event)
    → run c' (view s) events ≡ (map f (run c s events).0, view (run c s events).1)
Simulates-run c c' f view sim s [] = refl
Simulates-run {C' = C'} {E' = E'} c c' f view sim s (poll_it ∷ events) =
    ap (λ (p : Answer E' × C'). (p.0 ∷ (run c' p.1 events).0, (run c' p.1 events).1)) (sim.polls s)
    ∙ ap (λ (p : List (Answer E') × C'). (f (c.poll s).0 ∷ p.0, p.1))
        (Simulates-run c c' f view sim (c.poll s).1 events)
Simulates-run c c' f view sim s (shut_down ∷ events) =
    ap (λ t. run c' t events) (sim.shuts s)
    ∙ Simulates-run c c' f view sim (c.graceful_shutdown s) events

-- The answer of hyper's connection, as `UpgradableConnection` gives it.
abbrev pub by_hyper : {E B : Type 0} → Answer E → Answer (ConnectionError E B)
by_hyper panic = panic
by_hyper (value p) = value (map_ready (map_err hyper) p)

module _ (r : Reader) {S : Type 0} (B : Type 0)
    (h : Hyper r.State (TowerHyperService (IncomingRequestService S))) where
  pub http1-Simulates :
      Simulates
        (http1_connection h.poll_http1 h.shutdown_http1)
        (upgradable r B h)
        by_hyper
        (λ c. http1 c.conn)
  unfolding upgradable http1_connection Upgrade.poll Upgrade.graceful_shutdown
  http1-Simulates = record { polls = λ c. refl; shuts = λ c. refl }

  pub http2-Simulates :
      Simulates
        (http2_connection h.poll_http2 h.shutdown_http2)
        (upgradable r B h)
        by_hyper
        (λ c. http2 c.conn)
  unfolding upgradable http2_connection Upgrade.poll Upgrade.graceful_shutdown
  http2-Simulates = record { polls = λ c. refl; shuts = λ c. refl }

  passed_on-eq : (a : Answer (ConnectionError h.Error B)) → passed_on r B h a ≡ a
  unfolding passed_on
  passed_on-eq panic = refl
  passed_on-eq (value pending) = refl
  passed_on-eq (value (ready (ok tt))) = refl
  passed_on-eq (value (ready (err e))) = refl

  module _ {Protocol : Type 0} (protocol : Protocol) where
    abbrev pub held : ConnectionState r B h → Connecting r B h Protocol
    held st = record { protocol = protocol; conn = st }

    pub connecting-Simulates : Simulates (upgradable r B h) (connecting r B h) (λ a. a) held
    unfolding connecting
    connecting-Simulates = record {
      polls = λ s.
          ap (λ a. (a, held ((upgradable r B h).poll s).1))
            (passed_on-eq ((upgradable r B h).poll s).0);
      shuts = λ s. refl;
    }
