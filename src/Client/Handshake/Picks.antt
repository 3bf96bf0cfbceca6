-- ===== src/Client/Handshake/Picks.antt =====
-- Which protocol a handshake gives, and which connections the pool may share.
use hyperdriver.Base.{
  ◌≡◌, refl, sym, ap, String, Bool, if◌then◌else◌, Bool-cases, inl, inr, Option, some, is_some,
  Result, ok, err, map_err, map_ok, unwrap_or,
}
use hyperdriver.Info.{HttpProtocol, http1, http2, http3, multiplex}
use hyperdriver.Client.Handshake.{
  HttpConnection, h1, h2, AutoHttpProtocolError, http1_error, http2_error, unsupported_protocol,
  version, can_share, reuse, has_h2, multiplex_ready, handshake_h1, handshake_h2, handshake,
}

module _ {Send1 Send2 : Type 0} where
  -- A connection may be shared exactly if its protocol multiplexes, and the copy that the pool then
  -- takes of it has the same protocol; other connections give no copy.
  pub can_share-multiplex :
      (clone : Send2 → Send2) (c : HttpConnection Send1 Send2)
      → (can_share c ≡ multiplex (version c))
        × (is_some (reuse clone c) ≡ can_share c)
        × ((c' : HttpConnection Send1 Send2) → reuse clone c ≡ some c' → version c' ≡ version c)
  unfolding can_share version reuse multiplex
  can_share-multiplex clone (h1 conn) = (refl, refl, λ c' e. cc)
  can_share-multiplex clone (h2 conn) =
      (refl, refl, λ c' e. sym (ap (λ o. version (unwrap_or (h2 conn) o)) e))

-- The protocol of the connection, by what ALPN says and what was asked for.
abbrev pub picked : Bool → HttpProtocol → HttpProtocol
picked agreed http1 = if agreed then http2 else http1
picked agreed http2 = http2
picked agreed http3 = http3

module _ {Io Send1 Send2 E : Type 0} (tls_info : Io → Option (Option String))
    (connect1 : Io → Result Send1 E) (connect2 : Io → Result Send2 E) where
  abbrev pub Connects :
      HttpProtocol → Result (HttpConnection Send1 Send2) (AutoHttpProtocolError E) → Type 0
  Connects p (ok c) = version c ≡ p
  Connects http1 (err e) = (x : E) × (e ≡ http1_error x)
  Connects http2 (err e) = (x : E) × (e ≡ http2_error x)
  Connects http3 (err e) = e ≡ unsupported_protocol http3

  connects2 : (r : Result Send2 E) → Connects http2 (map_err http2_error (map_ok h2 r))
  unfolding version
  connects2 (ok c) = refl
  connects2 (err e) = (e, refl)

  connects1 : (r : Result Send1 E) → Connects http1 (map_err http1_error (map_ok h1 r))
  unfolding version
  connects1 (ok c) = refl
  connects1 (err e) = (e, refl)

  -- A handshake gives a connection of the protocol asked for, except that HTTP/1 becomes HTTP/2 on a
  -- stream whose TLS handshake has agreed on "h2"; its error is the one of that protocol. HTTP/3 is
  -- refused.
  pub handshake-Connects :
      (io : Io) (p : HttpProtocol)
      → Connects
          (picked (multiplex_ready tls_info connect1 connect2 io) p)
          (handshake tls_info connect1 connect2 io p)
  unfolding handshake multiplex_ready handshake_h1 handshake_h2
  handshake-Connects io http1 = elim (Bool-cases (has_h2 tls_info connect1 connect2 io)) [
    | inl agreed ↦ rw agreed (connects2 (connect2 io))
    | inr plain ↦ rw plain (connects1 (connect1 io))
  ]
  handshake-Connects io http2 = connects2 (connect2 io)
  handshake-Connects io http3 = refl
