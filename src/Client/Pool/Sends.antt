-- ===== src/Client/Pool/Sends.antt =====
-- A request from its key to hyper's sender, over a connection that the pool holds.
use hyperdriver.Base.{
  refl, none, or_else, ◌≡◌, sym, ap, subst, ◌∙◌, Bool, true, Option, some, String, Result, ok,
  map_ok, Outcome, value, ◌>>=◌,
}
use hyperdriver.Http.{Http, Request, other, http_11, http_2}
use hyperdriver.Info.{http1, http2}
use hyperdriver.Service.Host.{host_text, get_non_default_port}
use hyperdriver.Service.Checks.{HttpRequestError}
use hyperdriver.Service.Checks.Http2.{CheckedFor, Cleaned}
use hyperdriver.Service.Executor.{execute}
use hyperdriver.Service.Executor.Wire.{Wired, execute-Wired, execute-CheckedFor}
use hyperdriver.Client.Key.{build_key}
use hyperdriver.Client.Tls.{TlsTransport, Connect, from_plain, from_tls, tls}
use hyperdriver.Client.Tls.Domain.{Alike, get_host_of_uri, call_https}
use hyperdriver.Client.Tls.Pooled.{is_tls}
use hyperdriver.Client.Tls.Streams.{has_tls}
use hyperdriver.Client.Handshake.{h1, h2, AlpnHttpConnectionBuilder, version, send_request}
use hyperdriver.Client.Pool.{Parts, Streams, Connections, Pooled}
use hyperdriver.Client.Pool.Alike.{HostsAlike, asked, Ordinary, Pooled-call}

module _ (h : Http) (debug : Bool) {B T Config : Type 0} (E : Type 0) (p : Parts h B T Config)
    (t : TlsTransport T Config) (builder : AlpnHttpConnectionBuilder p.Builder1 p.Builder2) where
  abbrev pub Sent : Type 0
  Sent = Outcome (Result (p.Response × Connections h p (tls t) builder) (HttpRequestError E))

  -- The stack below the pool with the connection that it is given, which sends what it lets through.
  pub deliver : Connections h p (tls t) builder → Request h B → Sent
  deliver c req =
      execute h debug (version c) req >>= (λ r. value (map_ok (send_request h p.send1 p.send2 c) r))

  -- What hyper's sender is given, by the protocol that the TLS handshake of the stream asked for.
  pub data Delivered (n : String) (s : Streams h p (tls t) builder) (req : Request h B)
      : Connections h p (tls t) builder → Sent → Type 0 where
    over_http1 :
        {conn : p.Send1} (req' : Request h B)
        → asked h p (tls t) builder s ≡ http1
        → Wired h debug E n req req'
        → h.get req'.headers "host" ≡ some (host_text h n (get_non_default_port h req.uri))
        → Delivered n s req (h1 conn) (
            value (
              ok (
                (p.send1 conn (record req' { version = http_11 })).0,
                h1 (p.send1 conn (record req' { version = http_11 })).1,
              )))
    over_http2 :
        {conn : p.Send2} (req' : Request h B)
        → asked h p (tls t) builder s ≡ http2
        → Cleaned h req req'
        → Delivered n s req (h2 conn) (
            value (
              ok (
                (p.send2 conn (record req' { version = http_2 })).0,
                h2 (p.send2 conn (record req' { version = http_2 })).1,
              )))

  with_tls : (d : Connect T Config) (n : String) → Alike d (from_tls t n) → is_tls d ≡ true
  with_tls (from_tls u x) n e = refl
  with_tls (from_plain u) n e = absurd e

  module _ (req : Request h B) (m a n : String) (s : Streams h p (tls t) builder) where
    delivered :
        (c : Connections h p (tls t) builder)
        → req.method ≡ other m
        → h.scheme req.uri ≡ some "https"
        → h.authority req.uri ≡ some a
        → h.host req.uri ≡ some n
        → h.get req.headers "host" ≡ none
        → version c ≡ asked h p (tls t) builder s
        → Delivered n s req c (deliver c req)
    unfolding deliver version send_request
    delivered (h1 conn) em es ea eh own e =
        let (req', done, wired) = execute-Wired h debug E req m "https" a n em es ea eh in
        rw done (
          over_http1 req' (sym e) wired (
            wired.host
            ∙ ap (λ o. or_else o (some (host_text h n (get_non_default_port h req.uri)))) own))
    delivered (h2 conn) em es ea eh own e =
        let (r, done, checked) = execute-CheckedFor h debug E req in
        let (req', clean, cleaned) = subst (λ x. CheckedFor h E http2 x req r) em checked in
        rw done (rw clean (over_http2 req' (sym e) cleaned))

    -- An https request for a URI with an authority, without a Host header of its own, that finds a
    -- connection in the pool of the client, be it new or shared or used before, is sent over TLS to
    -- the host of its URI (but for the case of its letters), and hyper's sender gets it in the form for
    -- the protocol that the TLS handshake of that stream asked for: on HTTP/1 in origin form with a
    -- Host header that names the origin, on HTTP/2 without Host and the connection headers. That is,
    -- if all connections were made for requests with a scheme, https and wss in lower case, and
    -- without a Host header of their own, and the host of a URI is that in its authority; CONNECT is
    -- left aside.
    pub deliver-Delivered :
        (host_of : String → Option String) {d : Connect T Config}
        {c : Connections h p (tls t) builder}
        → HostsAlike h p (tls t) builder host_of
        → req.method ≡ other m
        → h.scheme req.uri ≡ some "https"
        → h.authority req.uri ≡ some a
        → h.host req.uri ≡ some n
        → Ordinary h p (tls t) builder host_of req
        → Pooled h p (tls t) builder (Ordinary h p (tls t) builder host_of) (build_key h req) d s c
        → Alike d (from_tls t n) × (has_tls s ≡ true) × Delivered n s req c (deliver c req)
    deliver-Delivered host_of {d} {c} alike em es ea eh plain pooled =
        let (called, secured, protocol) =
          Pooled-call h p (tls t) builder host_of req alike plain pooled in
        let by_tls =
          subst (Alike d) (call_https h t req n es (get_host_of_uri h req plain.no_header ∙ eh))
            called in
        (by_tls, secured ∙ with_tls d n by_tls, delivered c em es ea eh plain.no_header protocol)
