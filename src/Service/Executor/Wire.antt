-- ===== src/Service/Executor/Wire.antt =====
-- What reaches the connection, behind all three layers.
use hyperdriver.Base.{
  ◌≡◌, refl, ap, ◌∙◌, ◌≢◌, Bool, some, or_else, subst, String, Result, ok, err, value, ◌>>=◌,
}
use hyperdriver.Http.{Http, Request, other}
use hyperdriver.Info.{http1, http2}
use hyperdriver.Service.Host.{set_host_header, host_text, get_non_default_port}
use hyperdriver.Service.Host.Sets.{
  SetsHost, HostSet, set_host_header-SetsHost, call_connection-http1, call_connection-http2,
}
use hyperdriver.Service.Checks.{HttpRequestError, check_http1_request, check_http2_request}
use hyperdriver.Service.Checks.Http2.{CheckedFor, check_http2_request-CheckedFor}
use hyperdriver.Service.Checks.Forms.{IsOriginOf, Sent-origin, SentFor, check_http1_request-SentFor}
use hyperdriver.Service.Executor.{then_http1, execute}

module _ (h : Http) (debug : Bool) {B : Type 0} (E : Type 0) where
  -- An HTTP/1 request as a server of its origin wants it.
  pub record Wired (n : String) (req req' : Request h B) : Type 0 where
    pub host :
        h.get req'.headers "host"
        ≡ or_else (h.get req.headers "host") (some (host_text h n (get_non_default_port h req.uri)))
    pub others : (k : String) → "host" ≢ k → h.get req'.headers k ≡ h.get req.headers k
    pub uri : IsOriginOf h req.uri req'.uri
    pub method : req'.method ≡ req.method
    pub body : req'.body ≡ req.body

  origin_sent :
      (m s a n : String) (req mid : Request h B)
      → req.method ≡ other m
      → h.scheme req.uri ≡ some s
      → h.authority req.uri ≡ some a
      → HostSet h n req mid
      → SentFor h debug http1 mid (check_http1_request h debug http1 mid)
      → (req' : Request h B) × (check_http1_request h debug http1 mid ≡ value req')
        × Wired n req req'
  origin_sent m s a n req mid em es ea host (r, sent, e) =
      let method : mid.method ≡ other m = host.method ∙ em in
      let scheme : h.scheme mid.uri ≡ some s = ap h.scheme host.uri ∙ es in
      let authority : h.authority mid.uri ≡ some a = ap h.authority host.uri ∙ ea in
      let (u, made, form) =
        Sent-origin h debug mid.method _ _ m s a mid.uri r method scheme authority sent in
      (
        record mid { uri = u },
        e ∙ ap (λ o. o >>= (λ u. value (record mid { uri = u }))) made,
        record {
          host = host.host;
          others = host.others;
          uri = subst (λ v. IsOriginOf h v u) host.uri form;
          method = host.method;
          body = host.body;
        },
      )

  pub execute-Wired :
      (req : Request h B) (m s a n : String)
      → req.method ≡ other m
      → h.scheme req.uri ≡ some s
      → h.authority req.uri ≡ some a
      → h.host req.uri ≡ some n
      → (req' : Request h B) × (execute h debug {E = E} http1 req ≡ value (ok req'))
        × Wired n req req'
  unfolding execute then_http1
  execute-Wired req m s a n em es ea eh =
      let (mid, set, host) : SetsHost h (some n) req (set_host_header h req) =
        rw eh at (set_host_header-SetsHost h req) in
      let (req', sent, wired) =
        origin_sent m s a n req mid em es ea host (check_http1_request-SentFor h debug http1 mid) in
      let passed : check_http2_request h {E = E} http1 mid ≡ ok mid =
        check_http2_request-CheckedFor h E http1 mid in
      (
        req',
        ap (λ o. o >>= (λ x. then_http1 h debug http1 (check_http2_request h http1 x)))
              (call_connection-http1 h req ∙ set)
            ∙ ap (then_http1 h debug http1) passed
            ∙ ap (λ o. o >>= (λ x. value (ok x))) sent,
        wired,
      )

  passed : (r : Result (Request h B) (HttpRequestError E)) → then_http1 h debug http2 r ≡ value r
  unfolding then_http1
  passed (err e) = refl
  passed (ok req) =
      ap (λ o. o >>= (λ req'. value (ok req'))) (check_http1_request-SentFor h debug http2 req)

  -- On an HTTP/2 connection no request reaches the server with a Host header or one of the
  -- connection headers, CONNECT reaches it not at all, and the checks for HTTP/1 do nothing.
  pub execute-CheckedFor :
      (req : Request h B)
      → (r : Result (Request h B) (HttpRequestError E)) × (execute h debug http2 req ≡ value r)
        × CheckedFor h E http2 req.method req r
  unfolding execute then_http1
  execute-CheckedFor req = (
    check_http2_request h http2 req,
    rw (call_connection-http2 h req) (passed (check_http2_request h http2 req)),
    check_http2_request-CheckedFor h E http2 req,
  )
