-- ===== src/Client/Builder/Serves.antt =====
-- What the options do in the service that is built.
use hyperdriver.Base.{
  ◌≡◌, refl, ap, ◌∙◌, ◌≢◌, Bool, Option, none, some, or_else, unwrap_or, String, eq_iff, arith, ok,
  value, ◌>>=◌,
}
use hyperdriver.Http.{Http, Request}
use hyperdriver.Info.{HttpProtocol}
use hyperdriver.Service.Executor.Keeps.{execute-get}
use hyperdriver.Client.Tls
use hyperdriver.Client.Tls.{AutoTlsTransport, into_parts, with_optional_tls, get_tls_domain, call}
use hyperdriver.Client.Tls.Pooled.{into_parts-new}
use hyperdriver.Client.Builder.{Builder, ClientService, agent, build_service, if_not_present, send}

host_differs : ◌≢◌ {A = String} "host" "user-agent"
host_differs = ground (arith, eq_iff "host" "user-agent")

module _ (h : Http) (crate_name : String) where
  module _ {B : Type 0} where
    agent_set :
        (o : Option String) (ua : String) (req : Request h B)
        → h.get req.headers "user-agent" ≡ o
        → h.get (if_not_present h crate_name o ua req).headers "user-agent" ≡ or_else o (some ua)
    unfolding if_not_present
    agent_set none ua req e = h.get-insert req.headers "user-agent" ua "user-agent"
    agent_set (some v) ua req e = e

    -- Every request that reaches a connection, of whatever protocol, carries a User-Agent header: its
    -- own if it had one, and else the one of the service.
    send-user_agent :
        {T P Redirect Layer Config Pool : Type 0} (E : Type 0) (debug : Bool)
        (s : ClientService T P Redirect Layer Config Pool) (protocol : HttpProtocol)
        (req req' : Request h B)
        → send h crate_name {E = E} debug s protocol req ≡ value (ok req')
        → h.get req'.headers "user-agent"
          ≡ or_else (h.get req.headers "user-agent") (some s.user_agent)
    unfolding send
    send-user_agent E debug s protocol req req' e =
        execute-get h debug E "user-agent" protocol _ req' host_differs refl e
        ∙ agent_set (h.get req.headers "user-agent") s.user_agent req refl

  agent_valid :
      (o : Option String)
      → ((ua : String) → o ≡ some ua → h.header_value ua ≡ some ua)
      → agent h crate_name o ≡ value (unwrap_or crate_name o)
  unfolding agent
  agent_valid none valid = refl
  agent_valid (some ua) valid = rw (valid ua refl) refl

  module _ {T P Redirect Layer Config Pool : Type 0} where
    abbrev built :
        Builder T P Redirect Layer Config Pool
        → String
        → ClientService T P Redirect Layer Config Pool
    built b ua = record {
      layers = b.layers;
      timeout = b.timeout;
      redirect = b.redirect;
      user_agent = ua;
      transport = with_optional_tls b.tls (Tls.new b.transport);
      protocol = b.protocol;
      pool = b.pool;
    }

    -- The service has the options of the builder, and its transport the connector and the TLS
    -- configuration; with a valid user agent, or none, building it does not panic.
    pub build_service-value :
        (b : Builder T P Redirect Layer Config Pool)
        → ((ua : String) → b.user_agent ≡ some ua → h.header_value ua ≡ some ua)
        → (s : ClientService T P Redirect Layer Config Pool) × (build_service h crate_name b
            ≡ value s)
          × (s.user_agent ≡ unwrap_or crate_name b.user_agent)
          × (into_parts s.transport ≡ (b.transport, b.tls))
          × (s.timeout ≡ b.timeout)
          × (s.redirect ≡ b.redirect)
          × (s.layers ≡ b.layers)
          × (s.pool ≡ b.pool)
    unfolding build_service agent
    build_service-value b valid = (
      _,
      ap (λ o. o >>= (λ ua. value (built b ua))) (agent_valid b.user_agent valid),
      refl,
      into_parts-new b.tls b.transport,
      refl,
      refl,
      refl,
      refl,
    )
