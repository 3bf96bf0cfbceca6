-- ===== src/Client/Tls.antt =====
-- src/client/conn/tls.rs: the transport that uses TLS where the request's URI asks for it.
-- chateau's `TlsTransport` stands as the pair that its `into_parts` gives.
pub mod Pooled
pub mod Future
pub mod Streams
pub mod Domain
use hyperdriver.Base.{
  Bool, true, false, if◌then◌else◌, ◌||◌, Option, none, some, and_then, or_else, String, str_eq,
}
use hyperdriver.Http.{Http, Request}

module _ (h : Http) {B : Type 0} where
  -- `get_host`.
  unfoldable pub get_host : Request h B → Option String
  get_host req = or_else (and_then h.to_str (h.get req.headers "host")) (h.host req.uri)

  unfoldable pub tls_domain : Option String → Request h B → Option String
  unfolding get_host
  tls_domain none req = none
  tls_domain (some scheme) req =
      let host = get_host req in
      if str_eq scheme "https" then host else if str_eq scheme "wss" then host else none

  -- `get_tls_domain`.
  unfoldable pub get_tls_domain : Request h B → Option String
  unfolding tls_domain
  get_tls_domain req = tls_domain (h.scheme req.uri) req

pub record TlsTransport (T Config : Type 0) : Type 0 where
  pub transport : T
  pub config : Config

-- `InnerBraid`, of `AutoTlsTransport`.
pub data AutoTlsTransport (T Config : Type 0) : Type 0 where
  plain : T → AutoTlsTransport T Config
  tls : TlsTransport T Config → AutoTlsTransport T Config

module _ {T Config : Type 0} where
  -- `AutoTlsTransport::new`.
  unfoldable pub new : T → AutoTlsTransport T Config
  new t = plain t

  -- `with_tls`.
  unfoldable pub with_tls : Config → AutoTlsTransport T Config → AutoTlsTransport T Config
  with_tls config (plain t) = tls (record { transport = t; config = config })
  with_tls config (tls t) = tls (record { transport = t.transport; config = config })

  -- `with_optional_tls`.
  unfoldable pub with_optional_tls :
      Option Config → AutoTlsTransport T Config → AutoTlsTransport T Config
  unfolding with_tls
  with_optional_tls none a = a
  with_optional_tls (some config) a = with_tls config a

  -- `with_default_tls`; the configuration is what rustls makes of the platform's certificates.
  pub with_default_tls : Config → AutoTlsTransport T Config → AutoTlsTransport T Config
  unfolding with_tls
  with_default_tls default_tls_config a = with_tls default_tls_config a

  -- `Default for AutoTlsTransport`.
  pub default_transport : Config → T → AutoTlsTransport T Config
  unfolding new with_tls
  default_transport default_tls_config t = with_tls default_tls_config (new t)

  -- `into_inner` and `inner`.
  pub into_inner : AutoTlsTransport T Config → T
  into_inner (plain t) = t
  into_inner (tls t) = t.transport

  -- `into_parts`.
  pub into_parts : AutoTlsTransport T Config → T × Option Config
  into_parts (plain t) = (t, none)
  into_parts (tls t) = (t.transport, some t.config)

  -- `tls_config`.
  pub tls_config : AutoTlsTransport T Config → Option Config
  tls_config (plain t) = none
  tls_config (tls t) = some t.config

-- How `AutoTlsTransport::call` connects: by the transport alone, or with TLS to a domain.
pub data Connect (T Config : Type 0) : Type 0 where
  from_plain : T → Connect T Config
  from_tls : TlsTransport T Config → String → Connect T Config

module _ {T Config : Type 0} where
  unfoldable pub connect_by : AutoTlsTransport T Config → Option String → Connect T Config
  connect_by (plain t) domain = from_plain t
  connect_by (tls t) (some domain) = from_tls t domain
  connect_by (tls t) none = from_plain t.transport

module _ (h : Http) {B T Config : Type 0} where
  -- `AutoTlsTransport::call`.
  unfoldable pub call : AutoTlsTransport T Config → Request h B → Connect T Config
  unfolding connect_by
  call a req = connect_by a (get_tls_domain h req)
