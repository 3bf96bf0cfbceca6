-- ===== src/Client/Start/Gets.antt =====
-- A GET of the client that is built by default, up to its connection.
use hyperdriver.Base.{
  ◌≡◌, refl, ap, ◌∙◌, ◌≢◌, Bool, none, some, or_else, String, eq_iff, arith, ok, value,
}
use hyperdriver.Http.{Http, Request}
use hyperdriver.Info.{http1}
use hyperdriver.Service.Host.{host_text, get_non_default_port}
use hyperdriver.Service.Checks.Forms.{IsOriginOf}
use hyperdriver.Service.Executor.Wire.{execute-Wired}
use hyperdriver.Client.Tls
use hyperdriver.Client.Tls.{TlsTransport, from_tls, with_tls, with_optional_tls, call}
use hyperdriver.Client.Tls.Domain.{get_host_of_uri, call_https}
use hyperdriver.Client.Builder
use hyperdriver.Client.Builder.{Builder, ClientService, agent, build_service, if_not_present, send}
use hyperdriver.Client.Start.{get_request}

host_differs : ◌≢◌ {A = String} "host" "user-agent"
host_differs = ground (arith, eq_iff "host" "user-agent")

module _ (h : Http) (crate_name : String) (no_headers : h.HeaderMap) {B : Type 0} (empty_body : B)
    (nothing : (k : String) → h.get no_headers k ≡ none) where
  -- The request as it is behind the User-Agent layer.
  abbrev named : h.Uri → Request h B
  named uri = record (get_request h no_headers empty_body uri) {
    headers = h.insert "user-agent" crate_name no_headers;
  }

  -- The client that is built by default is built without a panic, has the limit of 30 seconds, the
  -- redirects and the pool, and connects for a GET of an https URI with TLS to the URI's host, by the
  -- default configuration. The GET reaches an HTTP/1 connection in origin form, with a Host header
  -- that names the origin and the User-Agent of the crate.
  pub get_request-Starts :
      {T P Redirect Layer Config Pool : Type 0} (E : Type 0) (debug : Bool) (transport : T)
      (protocol : P) (redirect : Redirect) (config : Config) (pool : Pool) (uri : h.Uri)
      (a n : String)
      → h.scheme uri ≡ some "https"
      → h.authority uri ≡ some a
      → h.host uri ≡ some n
      → (s : ClientService T P Redirect Layer Config Pool) × (build_service h crate_name
            (Builder.default transport protocol redirect config pool)
          ≡ value s)
        × (s.timeout ≡ some 30)
        × (s.redirect ≡ some redirect)
        × (s.pool ≡ some pool)
        × (call h s.transport (get_request h no_headers empty_body uri)
            ≡ from_tls (record { transport = transport; config = config }) n)
        × (req' : Request h B) × (send h crate_name {E = E} debug s http1
              (get_request h no_headers empty_body uri)
            ≡ value (ok req'))
        × IsOriginOf h uri req'.uri
        × (h.get req'.headers "host" ≡ some (host_text h n (get_non_default_port h uri)))
        × (h.get req'.headers "user-agent" ≡ some crate_name)
  unfolding build_service agent Builder.default with_optional_tls with_tls Tls.new get_request send
      if_not_present
  get_request-Starts E debug transport protocol redirect config pool uri a n es ea eh =
      let (req', done, wired) =
        execute-Wired h debug E (named uri) "GET" "https" a n refl es ea eh in
      (
        _,
        refl,
        refl,
        refl,
        refl,
        call_https h _ _ n es (get_host_of_uri h _ (nothing "host") ∙ eh),
        req',
        rw (nothing "user-agent") done,
        wired.uri,
        wired.host
            ∙ ap (λ o. or_else o (some (host_text h n (get_non_default_port h uri))))
                (h.get-insert no_headers "user-agent" crate_name "host" ∙ nothing "host"),
        wired.others "user-agent" host_differs
            ∙ h.get-insert no_headers "user-agent" crate_name "user-agent",
      )
