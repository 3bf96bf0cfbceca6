-- ===== src/Client/Pool/Alike.antt =====
-- A connection of the pool is one that the request itself would have got.
use hyperdriver.Base.{
  subst, map_some, ◌≡◌, refl, sym, ap, ◌∙◌, true, Option, none, some, and_then, is_some, String,
  Result, ok, err, arith,
}
use hyperdriver.Http.{Http, Request}
use hyperdriver.Info.{HttpProtocol}
use hyperdriver.Client.Key.{SameKey, folded, UriKey, build_key}
use hyperdriver.Client.Tls
use hyperdriver.Client.Tls.{get_host, AutoTlsTransport, Connect}
use hyperdriver.Client.Tls.Domain.{get_host_of_uri, same_domain, Alike, folded-some, same_call}
use hyperdriver.Client.Tls.Pooled.{IsExact, same_scheme, is_tls, call-is_tls}
use hyperdriver.Client.Tls.Streams.{has_tls, connected}
use hyperdriver.Client.Handshake.{
  HttpConnection, h1, h2, AutoHttpProtocolError, AlpnHttpConnectionBuilder, version, send_request,
  poll_ready,
}
use hyperdriver.Client.Handshake.Picks.{picked, can_share-multiplex}
use hyperdriver.Client.Handshake.Builds.{agreed, Predicted, call-Predicted}
use hyperdriver.Client.Pool.{Parts, Streams, Connections, Pooled, made, shared, polled, sent}

module _ {Send1 Send2 : Type 0} where
  version-poll_ready :
      {A : Type 0} (ready1 : Send1 → A × Send1) (ready2 : Send2 → A × Send2)
      (c : HttpConnection Send1 Send2)
      → version (poll_ready ready1 ready2 c).1 ≡ version c
  unfolding version poll_ready
  version-poll_ready ready1 ready2 (h1 conn) = refl
  version-poll_ready ready1 ready2 (h2 conn) = refl

  version-send_request :
      (h : Http) {B F : Type 0} (send1 : Send1 → Request h B → F × Send1)
      (send2 : Send2 → Request h B → F × Send2) (c : HttpConnection Send1 Send2) (req : Request h B)
      → version (send_request h send1 send2 c req).1 ≡ version c
  unfolding version send_request
  version-send_request h send1 send2 (h1 conn) req = refl
  version-send_request h send1 send2 (h2 conn) req = refl

module _ (h : Http) {B T Config : Type 0} (p : Parts h B T Config)
    (transport : AutoTlsTransport T Config)
    (builder : AlpnHttpConnectionBuilder p.Builder1 p.Builder2) where
  -- The protocol that the TLS handshake of the stream asks for.
  abbrev pub asked : Streams h p transport builder → HttpProtocol
  asked s =
      picked (agreed p.tls_info p.connect1 p.connect2 p.clone1 p.clone2 builder s)
        builder.initial_protocol

  -- A request of which `P` holds, for which the connection was made.
  record Origin (P : Request h B → Type 0) (k : UriKey) (d : Connect T Config)
      (s : Streams h p transport builder) (c : Connections h p transport builder) : Type 0 where
    request : Request h B
    holds : P request
    keyed : SameKey (build_key h request) k
    called : Tls.call h transport request ≡ d
    secured : has_tls s ≡ is_tls d
    protocol : version c ≡ asked s

  -- What the handshake gives when it is done, read off `Predicted`.
  established :
      (s : Streams h p transport builder) (c : Connections h p transport builder)
      (x : Result (Connections h p transport builder) (AutoHttpProtocolError p.HyperError))
      → x ≡ ok c
      → Predicted p.tls_info p.connect1 p.connect2 p.clone1 p.clone2
          (agreed p.tls_info p.connect1 p.connect2 p.clone1 p.clone2 builder s)
          builder.initial_protocol
          x
      → version c ≡ asked s
  established s c (ok c') e predicted = let same : c' ≡ c = ground arith in rw (← same) predicted.0
  established s c (err x) e predicted = cc

  carry :
      {P : Request h B → Type 0} {k : UriKey} {d : Connect T Config}
      {s : Streams h p transport builder} {c : Connections h p transport builder}
      (c' : Connections h p transport builder)
      → version c' ≡ version c
      → Origin P k d s c
      → Origin P k d s c'
  carry c' same o = record {
    request = o.request;
    holds = o.holds;
    keyed = o.keyed;
    called = o.called;
    secured = o.secured;
    protocol = same ∙ o.protocol;
  }

  Pooled-Origin :
      {P : Request h B → Type 0} {k : UriKey} {d : Connect T Config}
      {s : Streams h p transport builder} {c : Connections h p transport builder}
      → Pooled h p transport builder P k d s c
      → Origin P k d s c
  Pooled-Origin {d = d} {s = s} {c = c} (made req n holds keyed called stream conn) = record {
    request = req;
    holds = holds;
    keyed = keyed;
    called = called;
    secured =
        connected p.poll_plain p.poll_tls p.connection_error p.connect p.connect_tls n
          (Tls.call h transport req) req s stream
        ∙ ap is_tls called;
    protocol =
        established s c _ conn
          (call-Predicted p.tls_info p.connect1 p.connect2 p.clone1 p.clone2 builder s);
  }
  Pooled-Origin {c = c'} (shared {c} before e) =
      carry c' ((can_share-multiplex p.clone_sender c).2 c' e) (Pooled-Origin before)
  Pooled-Origin (polled {c} before) =
      carry _ (version-poll_ready p.ready1 p.ready2 c) (Pooled-Origin before)
  Pooled-Origin (sent {c} req before) =
      carry _ (version-send_request h p.send1 p.send2 c req) (Pooled-Origin before)

  -- A request with a scheme, spelt in lower case if it is one for TLS, and a host in its URI or its
  -- headers.
  pub record Complete (req : Request h B) : Type 0 where
    pub scheme_name : String
    pub scheme : h.scheme req.uri ≡ some scheme_name
    pub exact : IsExact scheme_name
    pub host : is_some (get_host h req) ≡ true

  -- A request with a scheme, spelt in lower case if it is one for TLS, whose host is that of its authority alone: it has no Host header yet.
  -- `host_of` is how the http crate finds the host in an authority.
  pub record Ordinary (host_of : String → Option String) (req : Request h B) : Type 0 where
    pub scheme_name : String
    pub scheme : h.scheme req.uri ≡ some scheme_name
    pub exact : IsExact scheme_name
    pub no_header : h.get req.headers "host" ≡ none
    pub host : h.host req.uri ≡ and_then host_of (h.authority req.uri)

  -- However a connection came into the pool and was used, if all requests that connections were made
  -- for have a scheme and a host, a request of that kind finds only connections that have TLS if it
  -- asks for TLS itself, and have none otherwise; and the protocol of each is the one that the TLS
  -- handshake of its own stream asked for. Keys are compared without regard to case, as the pool does
  -- it, and https and wss are to be spelt in lower case.
  pub Pooled-has_tls :
      {d : Connect T Config} {s : Streams h p transport builder}
      {c : Connections h p transport builder} (req : Request h B)
      → Complete req
      → Pooled h p transport builder Complete (build_key h req) d s c
      → (has_tls s ≡ is_tls (Tls.call h transport req)) × (version c ≡ asked s)
  Pooled-has_tls req whole pooled =
      let o = Pooled-Origin pooled in
      (
        o.secured
            ∙ ap is_tls (sym o.called)
            ∙ call-is_tls h transport o.request req o.holds.scheme_name whole.scheme_name
                o.holds.scheme whole.scheme o.holds.host whole.host o.holds.exact whole.exact
                o.keyed,
        o.protocol,
      )

  -- An authority and its other spellings name hosts that differ in case alone.
  abbrev pub HostsAlike : (String → Option String) → Type 0
  HostsAlike host_of =
      (a b : String)
      → folded a ≡ folded b
      → map_some folded (host_of a) ≡ map_some folded (host_of b)

  host_in :
      (host_of : String → Option String)
      → HostsAlike host_of
      → (x y : Option String) → map_some folded x ≡ map_some folded y
      → map_some folded (and_then host_of x) ≡ map_some folded (and_then host_of y)
  host_in host_of alike none none e = refl
  host_in host_of alike none (some b) e = cc
  host_in host_of alike (some a) none e = cc
  host_in host_of alike (some a) (some b) e = alike a b (folded-some a b e)

  host_folded :
      (host_of : String → Option String) (q : Request h B)
      → Ordinary host_of q
      → map_some folded (get_host h q)
        ≡ map_some folded (and_then host_of (build_key h q).authority)
  unfolding build_key
  host_folded host_of q b = ap (map_some folded) (get_host_of_uri h q b.no_header ∙ b.host)

  -- If moreover no request names another host in a Host header of its own, the stream of a pooled
  -- connection was connected as it would be for the request that finds it: without TLS, or with TLS to
  -- the same domain but for the case of its letters. `host_of` is to find hosts in an authority that
  -- do not depend on the case of its letters otherwise.
  pub Pooled-call :
      (host_of : String → Option String) {d : Connect T Config} {s : Streams h p transport builder}
      {c : Connections h p transport builder} (req : Request h B)
      → HostsAlike host_of
      → Ordinary host_of req
      → Pooled h p transport builder (Ordinary host_of) (build_key h req) d s c
      → Alike d (Tls.call h transport req) × (has_tls s ≡ is_tls d) × (version c ≡ asked s)
  Pooled-call host_of req alike plain pooled =
      let o = Pooled-Origin pooled in
      let scheme =
        same_scheme h o.request req o.holds.scheme_name plain.scheme_name o.holds.scheme
          plain.scheme o.keyed in
      let host =
        host_folded host_of o.request o.holds
        ∙ host_in host_of alike _ _ o.keyed.authority
        ∙ sym (host_folded host_of req plain) in
      let domain =
        same_domain h o.holds.scheme_name plain.scheme_name o.request req o.holds.scheme
          plain.scheme o.holds.exact plain.exact scheme host in
      (
        subst (λ d. Alike d (Tls.call h transport req)) o.called
            (same_call h transport o.request req domain),
        o.secured,
        o.protocol,
      )
