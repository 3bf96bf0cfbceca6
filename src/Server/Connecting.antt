-- ===== src/Server/Connecting.antt =====
-- src/server/conn/connecting.rs and src/server/conn/mod.rs: the connections that a server gives to
-- its tasks. A task polls a connection, and may ask it to shut down; hyper's connections are
-- parameters.
pub mod Runs
use hyperdriver.Base.{List, [], ◌∷◌, Result, ok, err, Poll, ready, pending, Outcome, value, panic}
use hyperdriver.Io.{Reader}
use hyperdriver.Server.Upgrade
use hyperdriver.Server.Upgrade.{Hyper, ConnectionError, ConnectionState, serve_connection}

-- `TowerHyperService::new(IncomingRequestService::new(service))`: what hyper is given of a service.
pub record IncomingRequestService (S : Type 0) : Type 0 where
  pub inner : S

pub record TowerHyperService (S : Type 0) : Type 0 where
  pub service : S

pub adapt : {S : Type 0} → S → TowerHyperService (IncomingRequestService S)
adapt s = record { service = record { inner = s } }

-- chateau's `Connection`, with the future that it is.
pub record Connection (C E : Type 0) : Type 0 where
  pub poll : C → Outcome (Poll (Result (Unit {0}) E)) × C
  pub graceful_shutdown : C → C

-- `HTTP1Connection` and `Http2Connection`, around hyper's connections.
pub record Http1Connection (Conn : Type 0) : Type 0 where
  pub conn : Conn

pub record Http2Connection (Conn : Type 0) : Type 0 where
  pub conn : Conn

module _ {Conn E : Type 0} (poll_conn : Conn → Poll (Result (Unit {0}) E) × Conn)
    (shutdown_conn : Conn → Conn) where
  -- The `Connection` and `Future` of each.
  pub http1_connection : Connection (Http1Connection Conn) E
  http1_connection = record {
    poll = λ c. let (r, conn) = poll_conn c.conn in (value r, record { conn = conn });
    graceful_shutdown = λ c. record { conn = shutdown_conn c.conn };
  }

  pub http2_connection : Connection (Http2Connection Conn) E
  http2_connection = record {
    poll = λ c. let (r, conn) = poll_conn c.conn in (value r, record { conn = conn });
    graceful_shutdown = λ c. record { conn = shutdown_conn c.conn };
  }

module _ {Io S Conn : Type 0} where
  -- `Http1Builder::serve_connection`; `serve` is hyper's, with upgrades.
  pub serve_http1 :
      (Io → TowerHyperService (IncomingRequestService S) → Conn) → Io → S → Http1Connection Conn
  serve_http1 serve io s = record { conn = serve io (adapt s) }

  -- `Http2Builder::serve_connection`.
  pub serve_http2 :
      (Io → TowerHyperService (IncomingRequestService S) → Conn) → Io → S → Http2Connection Conn
  serve_http2 serve io s = record { conn = serve io (adapt s) }

-- `UpgradableConnection` as a connection, and `Connecting`, which holds it with its protocol.
module _ (r : Reader) {S : Type 0} (B : Type 0)
    (h : Hyper r.State (TowerHyperService (IncomingRequestService S))) where
  pub upgradable : Connection (ConnectionState r B h) (ConnectionError h.Error B)
  upgradable = record {
    poll = Upgrade.poll r B h;
    graceful_shutdown = Upgrade.graceful_shutdown r B h;
  }

  pub record Connecting (Protocol : Type 0) : Type 0 where
    pub protocol : Protocol
    pub conn : ConnectionState r B h

  -- The match in `Connecting::poll`.
  passed_on :
      Outcome (Poll (Result (Unit {0}) (ConnectionError h.Error B)))
      → Outcome (Poll (Result (Unit {0}) (ConnectionError h.Error B)))
  passed_on panic = panic
  passed_on (value pending) = value pending
  passed_on (value (ready (ok u))) = value (ready (ok tt))
  passed_on (value (ready (err e))) = value (ready (err e))

  module _ {Protocol : Type 0} where
    -- `Connecting::build`.
    pub build : Protocol → S → r.State → Connecting Protocol
    build protocol s stream = record {
      protocol = protocol;
      conn = serve_connection r B h stream (adapt s);
    }

    -- Its `Connection` and `Future`.
    pub connecting : Connection (Connecting Protocol) (ConnectionError h.Error B)
    unfolding passed_on upgradable
    connecting = record {
      poll = λ c.
          let (answer, conn) = upgradable.poll c.conn in
          (passed_on answer, record c { conn = conn });
      graceful_shutdown = λ c. record c { conn = upgradable.graceful_shutdown c.conn };
    }
