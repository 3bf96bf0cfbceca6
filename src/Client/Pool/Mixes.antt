-- ===== src/Client/Pool/Mixes.antt =====
-- What the pool may mix up: requests whose keys say less than how they are connected.
use hyperdriver.Base.{refl, map_some, ℕ, ◌≡◌, sym, ap, ◌∙◌, false, none, some, String}
use hyperdriver.Http.{Http, Request, http_2}
use hyperdriver.Client.Key.{SameKey-of_path, folded, build_key}
use hyperdriver.Client.Tls
use hyperdriver.Client.Tls.{
  get_tls_domain, tls_domain, connect_by, get_host, TlsTransport, AutoTlsTransport, tls, into_inner,
  Connect, from_plain, from_tls,
}
use hyperdriver.Client.Tls.Domain.{get_host_of_uri, get_host_of_header, call_https, key_of_scheme}
use hyperdriver.Client.Tls.Pooled.{is_tls, call_without_scheme}
use hyperdriver.Client.Tls.Streams.{has_tls, connected}
use hyperdriver.Client.Handshake.{AlpnHttpConnectionBuilder}
use hyperdriver.Client.Pool.{Parts, Streams, Connections, Connected, Established, Pooled, made}

module _ (h : Http) {B T Config : Type 0} (p : Parts h B T Config) where
  -- Any requests at all may have been made.
  abbrev pub Any : Request h B → Type 0
  Any req = Unit

  -- An https request may find a connection without TLS. Every connection that was made for a request
  -- with the same authority, but without a scheme and for HTTP/2, stands in the pool under the key of
  -- the https request, though its stream has no TLS, whatever the transport is.
  pub plain_for_https :
      (transport : AutoTlsTransport T Config)
      (builder : AlpnHttpConnectionBuilder p.Builder1 p.Builder2) (r q : Request h B) (n : ℕ)
      (s : Streams h p transport builder) (c : Connections h p transport builder)
      → h.scheme r.uri ≡ none
      → r.version ≡ http_2
      → h.scheme q.uri ≡ some "https"
      → h.authority r.uri ≡ h.authority q.uri
      → Connected h p transport builder n r s
      → Established h p transport builder s c
      → Pooled h p transport builder Any (build_key h q) (from_plain (into_inner transport)) s c
        × (has_tls s ≡ false)
  plain_for_https transport builder r q n s c no_scheme v https same stream conn =
      let (key, called) = call_without_scheme h transport r no_scheme v in
      (
        made r n tt
            (SameKey-of_path (
              key
              ∙ ap (λ a. record { scheme = "https"; authority = a }) same
              ∙ sym (key_of_scheme h "https" q https)))
            called stream conn,
        connected p.poll_plain p.poll_tls p.connection_error p.connect p.connect_tls n
              (Tls.call h transport r) r s stream
            ∙ ap is_tls called,
      )

  -- An https request may find a connection with TLS to another host. A request that names a host in a
  -- Host header of its own is connected with TLS to that host, and yet stands under the key of its
  -- URI's authority; a request without such a header finds it there, though it would itself be
  -- connected with TLS to the host of the URI.
  pub other_domain :
      (t : TlsTransport T Config) (builder : AlpnHttpConnectionBuilder p.Builder1 p.Builder2)
      (r q : Request h B) (v x y : String) (n : ℕ) (s : Streams h p (tls t) builder)
      (c : Connections h p (tls t) builder)
      → h.scheme r.uri ≡ some "https"
      → h.scheme q.uri ≡ some "https"
      → h.authority r.uri ≡ h.authority q.uri
      → h.get r.headers "host" ≡ some v
      → h.to_str v ≡ some x
      → h.get q.headers "host" ≡ none
      → h.host q.uri ≡ some y
      → Connected h p (tls t) builder n r s
      → Established h p (tls t) builder s c
      → Pooled h p (tls t) builder Any (build_key h q) (from_tls t x) s c
        × (Tls.call h (tls t) q ≡ from_tls t y)
  other_domain t builder r q v x y n s c er eq same named text unnamed host stream conn = (
    made r n tt
        (SameKey-of_path (
          key_of_scheme h "https" r er
          ∙ ap (λ a. record { scheme = "https"; authority = a }) same
          ∙ sym (key_of_scheme h "https" q eq)))
        (call_https h t r x er (get_host_of_header h r v x named text)) stream conn,
    call_https h t q y eq (get_host_of_uri h q unnamed ∙ host),
  )

  called_plain :
      (t : TlsTransport T Config) (r : Request h B)
      → h.scheme r.uri ≡ some "WSS"
      → Tls.call h (tls t) r ≡ from_plain t.transport
  unfolding Tls.call get_tls_domain tls_domain connect_by
  called_plain t r e = rw e refl

  called_tls :
      (t : TlsTransport T Config) (q : Request h B) (x : String)
      → h.scheme q.uri ≡ some "wss"
      → get_host h q ≡ some x
      → Tls.call h (tls t) q ≡ from_tls t x
  unfolding Tls.call get_tls_domain tls_domain connect_by
  called_tls t q x e k = rw (e, k) refl

  -- A wss request may find a connection without TLS. A request whose URI spells that scheme in upper
  -- case is connected without TLS, by a transport that has it, since the scheme is compared as text;
  -- but the keys of the pool ignore case, and so the connection stands under the key of the wss request
  -- to that authority, which would itself be connected with TLS.
  pub other_case :
      (t : TlsTransport T Config) (builder : AlpnHttpConnectionBuilder p.Builder1 p.Builder2)
      (r q : Request h B) (x : String) (n : ℕ) (s : Streams h p (tls t) builder)
      (c : Connections h p (tls t) builder)
      → h.scheme r.uri ≡ some "WSS"
      → h.scheme q.uri ≡ some "wss"
      → map_some folded (h.authority r.uri) ≡ map_some folded (h.authority q.uri)
      → get_host h q ≡ some x
      → Connected h p (tls t) builder n r s
      → Established h p (tls t) builder s c
      → Pooled h p (tls t) builder Any (build_key h q) (from_plain t.transport) s c
        × (has_tls s ≡ false)
        × (Tls.call h (tls t) q ≡ from_tls t x)
  unfolding folded build_key
  other_case t builder r q x n s c er eq same host stream conn =
      let called = called_plain t r er in
      (
        made r n tt (record { scheme = rw (er, eq) refl; authority = same }) called stream conn,
        connected p.poll_plain p.poll_tls p.connection_error p.connect p.connect_tls n
              (Tls.call h (tls t) r) r s stream
            ∙ ap is_tls called,
        called_tls t q x eq host,
      )
