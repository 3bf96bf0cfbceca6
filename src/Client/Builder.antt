-- ===== src/Client/Builder.antt =====
-- src/client/builder.rs: the options of a client and the service that is built of them. `Layer` is the
-- type of the user's layers; the policies of redirects and the pool's configuration are types of
-- tower-http and chateau.
pub mod Serves
pub mod Getters
use hyperdriver.Base.{
  ℕ, Bool, List, [], ◌∷◌, ◌++◌, Option, none, some, String, Result, ok, err, Outcome, value, panic,
  ◌>>=◌,
}
use hyperdriver.Http.{Http, Request, expect}
use hyperdriver.Info.{HttpProtocol}
use hyperdriver.Service.Checks.{HttpRequestError}
use hyperdriver.Service.Executor.{execute}
use hyperdriver.Client.Tls
use hyperdriver.Client.Tls.{AutoTlsTransport, with_optional_tls}

-- `Builder`; a timeout is in seconds.
pub record Builder (T P Redirect Layer Config Pool : Type 0) : Type 0 where
  pub transport : T
  pub protocol : P
  pub layers : List Layer
  pub user_agent : Option String
  pub redirect : Option Redirect
  pub timeout : Option ℕ
  pub tls : Option Config
  pub pool : Option Pool

module _ {Redirect Layer Config Pool : Type 0} where
  -- `Builder::new`.
  pub new : Builder (Unit {0}) (Unit {0}) Redirect Layer Config Pool
  new = record {
    transport = tt;
    protocol = tt;
    layers = [];
    user_agent = none;
    redirect = none;
    timeout = none;
    tls = none;
    pool = none;
  }

  -- `Default for Builder`, with the defaults of its parts.
  unfoldable pub default :
      {T P : Type 0} → T → P → Redirect → Config → Pool → Builder T P Redirect Layer Config Pool
  default transport protocol redirect config pool = record {
    transport = transport;
    protocol = protocol;
    layers = [];
    user_agent = none;
    redirect = some redirect;
    timeout = some 30;
    tls = some config;
    pool = some pool;
  }

module _ {T P Redirect Layer Config Pool : Type 0} where
  -- `with_transport`, and `with_tcp` with the transport that it makes.
  pub with_transport :
      {T2 : Type 0}
      → T2
      → Builder T P Redirect Layer Config Pool
      → Builder T2 P Redirect Layer Config Pool
  with_transport transport b = record {
    transport = transport;
    protocol = b.protocol;
    layers = b.layers;
    user_agent = b.user_agent;
    redirect = b.redirect;
    timeout = b.timeout;
    tls = b.tls;
    pool = b.pool;
  }

  -- `with_protocol`, and `with_auto_http` with the protocol that it makes.
  pub with_protocol :
      {P2 : Type 0}
      → P2
      → Builder T P Redirect Layer Config Pool
      → Builder T P2 Redirect Layer Config Pool
  with_protocol protocol b = record {
    transport = b.transport;
    protocol = protocol;
    layers = b.layers;
    user_agent = b.user_agent;
    redirect = b.redirect;
    timeout = b.timeout;
    tls = b.tls;
    pool = b.pool;
  }

  -- `with_redirect_policy`, and `with_standard_redirect_policy` with that policy.
  pub with_redirect_policy :
      {Redirect2 : Type 0}
      → Redirect2
      → Builder T P Redirect Layer Config Pool
      → Builder T P Redirect2 Layer Config Pool
  with_redirect_policy policy b = record {
    transport = b.transport;
    protocol = b.protocol;
    layers = b.layers;
    user_agent = b.user_agent;
    redirect = some policy;
    timeout = b.timeout;
    tls = b.tls;
    pool = b.pool;
  }

  -- `without_redirects`.
  pub without_redirects :
      {Redirect2 : Type 0}
      → Builder T P Redirect Layer Config Pool
      → Builder T P Redirect2 Layer Config Pool
  without_redirects b = record {
    transport = b.transport;
    protocol = b.protocol;
    layers = b.layers;
    user_agent = b.user_agent;
    redirect = none;
    timeout = b.timeout;
    tls = b.tls;
    pool = b.pool;
  }

  -- `without_tls`, and `with_tls` and `with_default_tls` with their configurations.
  pub without_tls : Builder T P Redirect Layer Config Pool → Builder T P Redirect Layer Config Pool
  without_tls b = record b { tls = none }

  pub with_tls :
      Config → Builder T P Redirect Layer Config Pool → Builder T P Redirect Layer Config Pool
  with_tls config b = record b { tls = some config }

  -- `with_pool` and `with_default_pool`, and `without_pool`.
  pub with_pool :
      Pool → Builder T P Redirect Layer Config Pool → Builder T P Redirect Layer Config Pool
  with_pool pool b = record b { pool = some pool }

  pub without_pool : Builder T P Redirect Layer Config Pool → Builder T P Redirect Layer Config Pool
  without_pool b = record b { pool = none }

  -- `with_user_agent`.
  pub with_user_agent :
      String → Builder T P Redirect Layer Config Pool → Builder T P Redirect Layer Config Pool
  with_user_agent user_agent b = record b { user_agent = some user_agent }

  -- `with_timeout`, `without_timeout` and `with_optional_timeout`.
  pub with_timeout :
      ℕ → Builder T P Redirect Layer Config Pool → Builder T P Redirect Layer Config Pool
  with_timeout timeout b = record b { timeout = some timeout }

  pub without_timeout :
      Builder T P Redirect Layer Config Pool → Builder T P Redirect Layer Config Pool
  without_timeout b = record b { timeout = none }

  pub with_optional_timeout :
      Option ℕ → Builder T P Redirect Layer Config Pool → Builder T P Redirect Layer Config Pool
  with_optional_timeout timeout b = record b { timeout = timeout }

  -- `layer`: inside of the layers that are there.
  pub layer :
      Layer → Builder T P Redirect Layer Config Pool → Builder T P Redirect Layer Config Pool
  layer l b = record b { layers = b.layers ++ l ∷ [] }

-- What `build_service` composes: the user's layers, the timeout around the redirects around the
-- user agent, then the pool over the transport and the protocol, and below it the executor.
pub record ClientService (T P Redirect Layer Config Pool : Type 0) : Type 0 where
  pub layers : List Layer
  pub timeout : Option ℕ
  pub redirect : Option Redirect
  pub user_agent : String
  pub transport : AutoTlsTransport T Config
  pub protocol : P
  pub pool : Option Pool

-- `concat!(env!("CARGO_PKG_NAME"), "/", env!("CARGO_PKG_VERSION"))`, a valid header value.
module _ (h : Http) (crate_name : String) where
  -- The header value of the user agent.
  unfoldable pub agent : Option String → Outcome String
  agent none = value crate_name
  agent (some ua) = expect (h.header_value ua)

  -- `build_service`.
  unfoldable pub build_service :
      {T P Redirect Layer Config Pool : Type 0}
      → Builder T P Redirect Layer Config Pool
      → Outcome (ClientService T P Redirect Layer Config Pool)
  unfolding agent
  build_service b = agent b.user_agent >>= (λ user_agent. value (record {
    layers = b.layers;
    timeout = b.timeout;
    redirect = b.redirect;
    user_agent = user_agent;
    transport = with_optional_tls b.tls (Tls.new b.transport);
    protocol = b.protocol;
    pool = b.pool;
  }))

  -- `SetRequestHeaderLayer::if_not_present`, on the header that is there.
  unfoldable pub if_not_present : {B : Type 0} → Option String → String → Request h B → Request h B
  if_not_present none agent req = record req { headers = h.insert "user-agent" agent req.headers }
  if_not_present (some v) agent req = req

  -- A request on its way from that layer to a connection of the pool with the given protocol.
  unfoldable pub send :
      {T P Redirect Layer Config Pool B E : Type 0}
      → Bool
      → ClientService T P Redirect Layer Config Pool
      → HttpProtocol
      → Request h B
      → Outcome (Result (Request h B) (HttpRequestError E))
  unfolding if_not_present
  send debug s protocol req =
      execute h debug protocol (if_not_present (h.get req.headers "user-agent") s.user_agent req)
